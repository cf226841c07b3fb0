-- ===== src/Inventory/Cpu.antt =====
-- What `Collect` of agent/internal/inventory/inventory.go makes of /proc/cpuinfo.
use fos_next.Prelude.{
  ℕ, ◌+◌, Bool, true, false, List, [], ◌∷◌, Bytes, codes, if◌then◌else◌, ok, ◌≡◌, refl, sym, ap,
  ◌∙◌, inl, inr, arith, Bool-cases, Option-cases,
}
use fos_next.Strings.{equal, cut, split, trim_space}
use fos_next.Strings.Equal.{equal-eq}
use fos_next.World.{
  read_file, History, Env, pure, fail, attempt, wrapped, ◌>>=◌, match_option, sys, try, checked,
}
use fos_next.World.Gives.{bind-eq-ok, wrapped-eq-ok, ok-injective}
use fos_next.Netup.{list_nics}
use fos_next.Inventory.{
  CpuInfo, Info, first_model, scan_cpu_line, scan_cpu, read_cpu, read_ram, read_disk, collect,
}

-- the two sides of the colon in a line
abbrev pub key : Bytes → Bytes
key line = trim_space (cut line b':').0

abbrev pub value : Bytes → Bytes
value line = trim_space (cut line b':').1

-- how many lines start a processor
abbrev pub processors : List Bytes → ℕ
processors [] = 0
processors (l ∷ ls) = (if equal (key l) (codes "processor") then 1 else 0) + processors ls

-- the models that the lines name
abbrev pub models : List Bytes → List Bytes
models [] = []
models (l ∷ ls) =
    let rest = models ls in if equal (key l) (codes "model name") then value l ∷ rest else rest

abbrev pub first_nonempty : List Bytes → Bytes
first_nonempty [] = []
first_nonempty ([] ∷ vs) = first_nonempty vs
first_nonempty ((c ∷ v) ∷ vs) = c ∷ v

-- A line is not both.
model_name-processor :
    (k : Bytes) → equal k (codes "model name") ≡ true → equal k (codes "processor") ≡ false
model_name-processor k e = rw (equal-eq k (codes "model name") e) (unfold equal in refl)

scan_cpu_line-cores :
    (info : CpuInfo) (k v : Bytes)
    → (scan_cpu_line info k v).cores ≡ info.cores + (if equal k (codes "processor") then 1 else 0)
unfolding scan_cpu_line
scan_cpu_line-cores info k v = elim (Bool-cases (equal k (codes "model name"))) [
  | inl y ↦ rw (y, model_name-processor k y) (omega arith)
  | inr n ↦ elim (Bool-cases (equal k (codes "processor"))) [
    | inl p ↦ rw (n, p) refl
    | inr q ↦ rw (n, q) (omega arith)
  ]
]

scan_cpu-cores :
    (lines : List Bytes) (info : CpuInfo)
    → (scan_cpu lines info).cores ≡ info.cores + processors lines
unfolding scan_cpu
scan_cpu-cores [] info = omega arith
scan_cpu-cores (l ∷ ls) info =
    let line = scan_cpu_line-cores info (key l) (value l) in
    let rest = scan_cpu-cores ls (scan_cpu_line info (key l) (value l)) in omega (arith, line, rest)

scan_cpu_line-model :
    (info : CpuInfo) (k v : Bytes)
    → (scan_cpu_line info k v).model
      ≡ (if equal k (codes "model name") then first_model info.model v else info.model)
unfolding scan_cpu_line
scan_cpu_line-model info k v = elim (Bool-cases (equal k (codes "model name"))) [
  | inl y ↦ rw y refl
  | inr n ↦ elim (Bool-cases (equal k (codes "processor"))) [
    | inl p ↦ rw (n, p) refl
    | inr q ↦ rw (n, q) refl
  ]
]

first_model-nonempty :
    (b : Bool) (m v : Bytes) (vs : List Bytes)
    → first_nonempty ((if b then first_model m v else m) ∷ vs)
      ≡ first_nonempty (m ∷ (if b then v ∷ vs else vs))
unfolding first_model
first_model-nonempty false m v vs = refl
first_model-nonempty true [] v vs = refl
first_model-nonempty true (c ∷ m) v vs = refl

first_nonempty-one : (m : Bytes) → m ≡ first_nonempty (m ∷ [])
first_nonempty-one [] = refl
first_nonempty-one (c ∷ m) = refl

scan_cpu-model :
    (lines : List Bytes) (info : CpuInfo)
    → (scan_cpu lines info).model ≡ first_nonempty (info.model ∷ models lines)
unfolding scan_cpu
scan_cpu-model [] info = first_nonempty-one info.model
scan_cpu-model (l ∷ ls) info =
    scan_cpu-model ls (scan_cpu_line info (key l) (value l))
    ∙ ap (λ m. first_nonempty (m ∷ models ls)) (scan_cpu_line-model info (key l) (value l))
    ∙ first_model-nonempty (equal (key l) (codes "model name")) info.model (value l) (models ls)

-- What an inventory says of the processors that the text describes.
pub record Counted (text : Bytes) (cores : ℕ) (model : Bytes) : Type 0 where
  pub counted : cores ≡ processors (split text b'\n')
  pub named : model ≡ first_nonempty (models (split text b'\n'))

scan_cpu-Counted :
    (text : Bytes) (info : CpuInfo)
    → scan_cpu (split text b'\n') (record { model = []; cores = 0 }) ≡ info
    → Counted text info.cores info.model
scan_cpu-Counted text info e = record {
  counted = sym (ap (λ i. CpuInfo.cores i) e) ∙ scan_cpu-cores (split text b'\n') _ ∙ omega arith;
  named = sym (ap (λ i. CpuInfo.model i) e) ∙ scan_cpu-model (split text b'\n') _;
}

read_cpu-Counted :
    (env : Env) (h : History) (info : CpuInfo)
    → (read_cpu env h).0 ≡ ok info
    → Counted (env.answer h (read_file (codes "/proc/cpuinfo"))).out info.cores info.model
unfolding read_cpu ◌>>=◌ try sys checked match_option pure fail
read_cpu-Counted env h info e =
    elim (Option-cases (env.answer h (read_file (codes "/proc/cpuinfo"))).fault) [
      | inl q ↦ scan_cpu-Counted _ info (ok-injective (rw q at e))
      | inr (x, q) ↦ absurd (cc (rw q at e))
    ]

-- An inventory that `Collect` returns has as its core count the number of lines with the key
-- `processor` in what /proc/cpuinfo said, and as its model the first non-empty value of the key
-- `model name`, or nothing if there is none.
pub collect-Counted :
    (env : Env) (h : History) (info : Info)
    → (collect env h).0 ≡ ok info
    → Counted (env.answer h (read_file (codes "/proc/cpuinfo"))).out info.cpu_cores info.cpu_model
unfolding collect pure
collect-Counted env h info e =
    let (cpu, q, w) = bind-eq-ok (wrapped (codes "cpu: ") (read_cpu env)) _ h e in
    let (ram, _, w1) = bind-eq-ok (wrapped (codes "ram: ") (read_ram env)) _ _ (rw w at e) in
    let (disk, _, w2) = bind-eq-ok (read_disk env) _ _ (rw w1 at (rw w at e)) in
    let (nics, _, w3) =
      bind-eq-ok (attempt (list_nics env)) _ _ (rw w2 at (rw w1 at (rw w at e))) in
    let (uuid, _, w4) = bind-eq-ok _ _ _ (rw w3 at (rw w2 at (rw w1 at (rw w at e)))) in
    let same = ok-injective (rw w4 at (rw w3 at (rw w2 at (rw w1 at (rw w at e))))) in
    let c = read_cpu-Counted env h cpu (wrapped-eq-ok _ (read_cpu env) h q).0 in
    record {
      counted = sym (ap (λ i. Info.cpu_cores i) same) ∙ c.counted;
      named = sym (ap (λ i. Info.cpu_model i) same) ∙ c.named;
    }
