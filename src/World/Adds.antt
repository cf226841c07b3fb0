-- ===== src/World/Adds.antt =====
-- What an action adds to the history: one rule for each way to build an action.
use fos_next.Prelude.{Bool, true, false, List, [], ◌∷◌, Option, none, some, Bytes, Result, ok, err}
use fos_next.World.{
  Syscall, Event, call, http, History, Request, Env, Act, pure, fail, attempt, lift, ask, ◌>>=◌,
  deferred, sys, send, match_option, match_result, branch, exec, Reply, checked, exec_with,
  combined_output, output, try, wrapped, expect,
}

-- `h'` is `h` with further events, all of them in `Q`.
pub data Emits (Q : Event → Type 0) (h : History) : History → Type 0 where
  nothing : Emits Q h h
  event : {h' : History} {e : Event} → Q e → Emits Q h h' → Emits Q h (e ∷ h')

pub Emits-trans :
    {Q : Event → Type 0} {h h' h'' : History} → Emits Q h h' → Emits Q h' h'' → Emits Q h h''
Emits-trans a nothing = a
Emits-trans a (event q b) = event q (Emits-trans a b)

pub Emits-weaken :
    {Q R : Event → Type 0} {h h' : History}
    → ((e : Event) → Q e → R e)
    → Emits Q h h'
    → Emits R h h'
Emits-weaken w nothing = nothing
Emits-weaken w (event {e} q b) = event (w e q) (Emits-weaken w b)

-- Wherever `m` runs, and whatever it meets, it adds events of `Q` only.
pub record Adds {A : Type 0} (Q : Event → Type 0) (m : Act A) : Type 0 where
  pub at : (h : History) → Emits Q h (m h).1

module _ {Q : Event → Type 0} {A : Type 0} where
  pub Adds-pure : (a : A) → Adds Q (pure a)
  unfolding pure
  Adds-pure a = record { at = λ h. nothing }

  pub Adds-fail : (e : Bytes) → Adds Q (fail {A = A} e)
  unfolding fail
  Adds-fail e = record { at = λ h. nothing }

  pub Adds-lift : (r : Result A) → Adds Q (lift r)
  unfolding lift
  Adds-lift r = record { at = λ h. nothing }

  pub Adds-ask : (f : History → A) → Adds Q (ask f)
  unfolding ask
  Adds-ask f = record { at = λ h. nothing }

  pub Adds-attempt : (m : Act A) → Adds Q m → Adds Q (attempt m)
  unfolding attempt
  Adds-attempt m a = record { at = λ h. a.at h }

  pub Adds-branch : (b : Bool) (m n : Act A) → Adds Q m → Adds Q n → Adds Q (branch b m n)
  unfolding branch
  Adds-branch true m n km kn = km
  Adds-branch false m n km kn = kn

module _ {Q : Event → Type 0} {A B : Type 0} where
  pub Adds-option :
      (o : Option A) (f : A → Act B) (n : Act B)
      → ((a : A) → Adds Q (f a))
      → Adds Q n
      → Adds Q (match_option o f n)
  unfolding match_option
  Adds-option (some a) f n kf kn = kf a
  Adds-option none f n kf kn = kn

  pub Adds-result :
      (r : Result A) (f : A → Act B) (g : Bytes → Act B)
      → ((a : A) → Adds Q (f a))
      → ((e : Bytes) → Adds Q (g e))
      → Adds Q (match_result r f g)
  unfolding match_result
  Adds-result (ok a) f g kf kg = kf a
  Adds-result (err e) f g kf kg = kg e

  Adds-continue :
      (r : Result A) (f : A → Act B) (h : History)
      → ((a : A) → Adds Q (f a))
      → Emits Q h ((lift r >>= f) h).1
  unfolding ◌>>=◌
  Adds-continue (ok a) f h k = (k a).at h
  Adds-continue (err e) f h k = nothing

  pub Adds-bind :
      (m : Act A) (f : A → Act B) → Adds Q m → ((a : A) → Adds Q (f a)) → Adds Q (m >>= f)
  unfolding ◌>>=◌
  Adds-bind m f km kf = record {
    at = λ h. Emits-trans (km.at h) (Adds-continue (m h).0 f (m h).1 kf);
  }

  pub Adds-deferred : (d : Act A) (m : Act B) → Adds Q d → Adds Q m → Adds Q (deferred d m)
  unfolding deferred
  Adds-deferred d m kd km = record { at = λ h. Emits-trans (km.at h) (kd.at (m h).1) }

pub Adds-weaken :
    {Q R : Event → Type 0} {A : Type 0} (m : Act A)
    → ((e : Event) → Q e → R e)
    → Adds Q m
    → Adds R m
Adds-weaken m w k = record { at = λ h. Emits-weaken w (k.at h) }

module _ {Q : Event → Type 0} (env : Env) where
  pub Adds-sys : (c : Syscall) → Q (call c) → Adds Q (sys env c)
  unfolding sys
  Adds-sys c q = record { at = λ h. event q nothing }

  pub Adds-send : (r : Request) → Q (http r) → Adds Q (send env r)
  unfolding send
  Adds-send r q = record { at = λ h. event q nothing }

module _ {Q : Event → Type 0} (env : Env) where
  pub Adds-checked : (r : Reply) → Adds Q (checked env r)
  unfolding checked
  Adds-checked r = search (Adds-option, Adds-fail, Adds-pure)

  pub Adds-exec_with :
      (name : Bytes) (args : List Bytes) (stdin : Bytes)
      → Q (call (exec (record { name = name; args = args; stdin = stdin })))
      → Adds Q (exec_with env name args stdin)
  unfolding exec_with
  Adds-exec_with name args stdin q = Adds-sys env _ q

  pub Adds-combined_output :
      (name : Bytes) (args : List Bytes)
      → Q (call (exec (record { name = name; args = args; stdin = [] })))
      → Adds Q (combined_output env name args)
  unfolding combined_output
  Adds-combined_output name args q = Adds-exec_with name args [] q

  pub Adds-output :
      (name : Bytes) (args : List Bytes)
      → Q (call (exec (record { name = name; args = args; stdin = [] })))
      → Adds Q (output env name args)
  unfolding output
  Adds-output name args q = Adds-bind _ _ (Adds-combined_output name args q) Adds-checked

  pub Adds-try : (c : Syscall) → Q (call c) → Adds Q (try env c)
  unfolding try
  Adds-try c q = Adds-bind _ _ (Adds-sys env c q) Adds-checked

module _ {Q : Event → Type 0} where
  pub Adds-wrapped :
      {A : Type 0} (context : Bytes) (m : Act A) → Adds Q m → Adds Q (wrapped context m)
  unfolding wrapped
  Adds-wrapped context m k = search (Adds-bind, Adds-attempt, Adds-result, Adds-pure, Adds-fail)

  pub Adds-expect : (context : Bytes) (r : Reply) → Adds Q (expect context r)
  unfolding expect
  Adds-expect context r = search (Adds-option, Adds-fail, Adds-pure)

pub ruleset adds_rules = (
  Adds-pure, Adds-fail, Adds-lift, Adds-ask, Adds-attempt, Adds-branch, Adds-option, Adds-result,
  Adds-bind, Adds-deferred, Adds-sys, Adds-send, Adds-checked, Adds-exec_with, Adds-combined_output,
  Adds-output, Adds-try, Adds-wrapped, Adds-expect,
)
