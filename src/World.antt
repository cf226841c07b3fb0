-- ===== src/World.antt =====
-- The world outside the agent: subprocesses, files, HTTP and time. The agent's calls are recorded
-- in a history, newest first, and every answer is an arbitrary function of the history before it,
-- given by the parameter `Env`. An action is a function of the history that returns, or fails with
-- a Go error; what it did before it failed stays in the history.
pub mod Adds
pub mod Gives
pub mod Counts
pub mod Ran
use fos_next.Prelude.{
  ℕ, ℤ, Bool, true, false, List, [], ◌∷◌, ◌++◌, Option, none, some, Bytes, Result, ok, err,
}
use fos_next.Wire.{Payload, Codec}

-- `exec.Command(name, args...)` with the bytes on its standard input
pub record Command : Type 0 where
  pub name : Bytes
  pub args : List Bytes
  pub stdin : Bytes

pub data Syscall : Type 0 where
  exec : Command → Syscall
  start : Command → Syscall  -- `cmd.Start()`
  wait_exit : Command → Syscall  -- `cmd.Wait()`, with what was written to `cmd.Stdout`
  exec_replace : Bytes → List Bytes → List Bytes → Syscall  -- `syscall.Exec`
  look_path : Bytes → Syscall
  read_file : Bytes → Syscall
  read_dir : Bytes → Syscall
  open_read : Bytes → Syscall
  open_write : Bytes → Syscall
  read : Bytes → ℕ → Syscall  -- one `Read` into a buffer of that size
  write : Bytes → Bytes → Syscall
  create_temp : Bytes → Syscall
  stat : Bytes → Syscall
  mkdir_all : Bytes → Syscall
  remove : Bytes → Syscall
  sleep : ℕ → Syscall  -- milliseconds

-- What a call yields: output bytes, and a Go error if it failed.
pub record Reply : Type 0 where
  pub out : Bytes
  pub fault : Option Bytes

-- A body that is read to its end yields bytes, and may break off with an error.
pub data Body : Type 0 where
  empty : Body
  json : Payload → Body
  stream : Bytes → Option Bytes → Body

pub record Request : Type 0 where
  pub streaming : Bool  -- sent by `streamClient`, not by `httpClient`
  pub method : Bytes
  pub url : Bytes
  pub headers : List (Bytes × Bytes)
  pub body : Body

pub data Response : Type 0 where
  failed : Bytes → Response
  replied : ℕ → Bytes → Reply → Response  -- status code, status line, body

-- An address of an interface, as `net.ParseCIDR` reads it.
pub data Ip : Type 0 where
  v4 : ℕ → ℕ → ℕ → ℕ → Ip
  v6 : Bytes → Ip

pub data Event : Type 0 where
  call : Syscall → Event
  http : Request → Event

abbrev pub History : Type 0
History = List Event

pub record Env : Type 0 where
  pub answer : History → Syscall → Reply
  pub respond : History → Request → Response
  pub cancelled : History → Option Bytes  -- `ctx.Err()` where the agent waits
  pub ticks : History → ℕ  -- rounds of a status poll while a subprocess runs
  pub drained : History → Bool  -- the latest subprocess has read all of its input
  pub entries : History → List Bytes  -- the names that the latest `read_dir` lists
  pub addresses : History → Bytes → List Ip  -- of the interface with that name, none if there is none
  pub scaled : Bytes → ℕ → Option ℤ  -- `int64(v * k)` for the `v` that `strconv.ParseFloat` reads
  pub codec : Codec

abbrev pub Act : Type 0 → Type 0
Act A = History → Result A × History

module _ {A : Type 0} where
  unfoldable pub pure : A → Act A
  pure a h = (ok a, h)

  unfoldable pub fail : Bytes → Act A
  fail e h = (err e, h)

  -- the result with its error as a value, as Go code receives it
  unfoldable pub attempt : Act A → Act (Result A)
  attempt m h = let (r, h') = m h in (ok r, h')

  unfoldable pub lift : Result A → Act A
  lift r h = (r, h)

module _ {A B : Type 0} where
  abbrev continue : Result A → (A → Act B) → Act B
  continue (ok a) f h = f a h
  continue (err e) f h = (err e, h)

  infixl 5 ◌>>=◌ ◌>>◌
  unfoldable pub ◌>>=◌ : Act A → (A → Act B) → Act B
  unfolding pure fail attempt lift
  ◌>>=◌ m f h = let (r, h') = m h in continue r f h'

  abbrev pub ◌>>◌ : Act A → Act B → Act B
  m >> n = m >>= λ _. n

  -- `defer d` in front of `m`: `d` runs when `m` has returned, with or without an error
  unfoldable pub deferred : Act A → Act B → Act B
  deferred d m h = let (r, h') = m h in let (_, h'') = d h' in (r, h'')

-- an `if` between two courses of action
unfoldable pub branch : {A : Type 0} → Bool → Act A → Act A → Act A
branch true m n = m
branch false m n = n

module _ {A B : Type 0} where
  -- `if v, err := …; err != nil`, and its like
  unfoldable pub match_result : Result A → (A → Act B) → (Bytes → Act B) → Act B
  match_result (ok a) f g = f a
  match_result (err e) f g = g e

  unfoldable pub match_option : Option A → (A → Act B) → Act B → Act B
  match_option (some a) f n = f a
  match_option none f n = n

-- an environment's choice at this point
unfoldable pub ask : {A : Type 0} → (History → A) → Act A
ask f h = (ok (f h), h)

module _ (env : Env) where
  unfoldable pub sys : Syscall → Act Reply
  sys c h = (ok (env.answer h c), call c ∷ h)

  unfoldable pub send : Request → Act Response
  send r h = (ok (env.respond h r), http r ∷ h)

  -- `exec.Command(name, args...)` with `stdin`, and its `CombinedOutput()`
  unfoldable pub exec_with : Bytes → List Bytes → Bytes → Act Reply
  exec_with name args stdin = sys (exec (record { name = name; args = args; stdin = stdin }))

  unfoldable pub combined_output : Bytes → List Bytes → Act Reply
  combined_output name args = exec_with name args []

  -- the output of a call that fails with its error
  unfoldable pub checked : Reply → Act Bytes
  checked r = match_option r.fault fail (pure r.out)

  -- `Output()`
  unfoldable pub output : Bytes → List Bytes → Act Bytes
  output name args = combined_output name args >>= checked

  -- a call of the system, with its Go error
  unfoldable pub try : Syscall → Act Bytes
  try c = sys c >>= checked

-- `if err != nil { return fmt.Errorf("<context>: %w", err) }`
unfoldable pub wrapped : {A : Type 0} → Bytes → Act A → Act A
wrapped context m = attempt m >>= λ r. match_result r pure (λ e. fail (context ++ e))

-- `if err != nil { return fmt.Errorf("<context>: %w\n%s", err, out) }`
unfoldable pub expect : Bytes → Reply → Act (Unit {0})
expect context r = match_option r.fault (λ e. fail (context ++ e ++ (b'\n' ∷ r.out))) (pure tt)
