-- ===== src/Actions/Capture/Fixed.antt =====
-- The list of fixed-size partitions that `Capture` of agent/internal/actions/actions.go keeps, as `Deploy`
-- reads it.
use fos_next.Prelude.{
  ℕ, pos, eq_ℤ, Bool, true, false, List, [], ◌∷◌, map, Bytes, codes, ok, ◌≡◌, ◌≢◌, refl, sym, ap,
  ◌∙◌, arith, inl, inr, Bool-cases, Result-cases,
}
use fos_next.Strings.{equal}
use fos_next.Wire.{HandshakeResponse}
use fos_next.World.{History, Env, pure, attempt, branch, ◌>>=◌}
use fos_next.World.Adds.{Emits, Emits-trans, nothing, Adds, Adds-branch, Adds-pure}
use fos_next.World.Ran.{Any}
use fos_next.World.Ran.{anything}
use fos_next.Imaging.Calls.{clean_ntfs-Adds}
use fos_next.World.Gives.{bind-eq-ok, ok-injective}
use fos_next.Api.{Client}
use fos_next.Imaging
use fos_next.Imaging.{can_shrink, shrink}
use fos_next.Actions.Parts.{detect_filesystem}
use fos_next.Actions.Deploy.{is_fixed, is_resizable}
use fos_next.Actions.Capture.{
  note_fixed, not_shrunk, prepare, upload_image, upload_sentinel, refuse_bitlocker, capture_part,
}
use fos_next.Actions.Capture.Contents.{guard_since}

-- whether a number is in a list of numbers, as `Deploy` looks it up
abbrev pub listed : List ℕ → ℕ → Bool
listed ns n = is_fixed (map pos ns) n

eq_ℤ-pos : (a b : ℕ) → a ≢ b → eq_ℤ (pos a) (pos b) ≡ false
eq_ℤ-pos a b ne = ground arith

eq_ℤ_refl : (a : ℕ) → eq_ℤ (pos a) (pos a) ≡ true
eq_ℤ_refl a = ground arith

pub listed-note_fixed :
    (full : Bool) (ns : List ℕ) (k : ℕ)
    → listed ns k ≡ false
    → listed (note_fixed full ns k) k ≡ full
unfolding is_fixed note_fixed
listed-note_fixed false ns k e = e
listed-note_fixed true [] k e = rw (eq_ℤ_refl k) refl
listed-note_fixed true (n ∷ ns) k e = elim (Bool-cases (eq_ℤ (pos n) (pos k))) [
  | inl y ↦ rw y refl
  | inr o ↦ let rest = listed-note_fixed true ns k (rw o at e) in rw o rest
]

pub listed-other :
    (full : Bool) (ns : List ℕ) (k j : ℕ) → k ≢ j → listed (note_fixed full ns k) j ≡ listed ns j
unfolding is_fixed note_fixed
listed-other false ns k j ne = refl
listed-other true [] k j ne = rw (eq_ℤ-pos k j ne) refl
listed-other true (n ∷ ns) k j ne = let rest = listed-other true ns k j ne in rw rest refl

-- Why a partition whose filesystem is `fs` is in the list of fixed-size partitions, or is not: the image
-- is resizable and the filesystem cannot be shrunk, or a shrink of it did not succeed; or the image is
-- not resizable, the partition is a swap partition, or a shrink of its filesystem succeeded. The shrink
-- was run behind `start`.
pub data Why (env : Env) (resp : HandshakeResponse) (dev fs : Bytes) (start : History)
    : Bool → Type 0 where
  unshrinkable :
      equal fs (codes "swap") ≡ false
      → is_resizable resp ≡ true
      → can_shrink fs ≡ false
      → Why env resp dev fs start true
  unshrunk :
      equal fs (codes "swap") ≡ false
      → (g : History) → Emits Any start g
      → is_resizable resp ≡ true
      → (shrink env dev fs g).0 ≢ ok true
      → Why env resp dev fs start true
  shrunk :
      equal fs (codes "swap") ≡ false
      → (g : History) → Emits Any start g
      → is_resizable resp ≡ true
      → (shrink env dev fs g).0 ≡ ok true
      → Why env resp dev fs start false
  swap : equal fs (codes "swap") ≡ true → Why env resp dev fs start false
  rigid : is_resizable resp ≡ false → Why env resp dev fs start false

-- The filesystem of a device was looked up behind `start`, and the device is in the list of fixed-size
-- partitions, or is not, for a reason that fits it.
pub record Sized (env : Env) (resp : HandshakeResponse) (dev : Bytes) (start : History)
    (full : Bool) : Type 0 where
  pub fs : Bytes
  pub from : History
  pub since : Emits Any start from
  pub detected : (detect_filesystem env dev from).0 ≡ ok fs
  pub why : Why env resp dev fs start full

Why-since :
    {env : Env} {resp : HandshakeResponse} {dev fs : Bytes} {start h : History} {full : Bool}
    → Emits Any start h
    → Why env resp dev fs h full
    → Why env resp dev fs start full
Why-since e (unshrinkable o y n) = unshrinkable o y n
Why-since e (unshrunk o g k y n) = unshrunk o g (Emits-trans e k) y n
Why-since e (shrunk o g k y t) = shrunk o g (Emits-trans e k) y t
Why-since e (swap y) = swap y
Why-since e (rigid n) = rigid n

pub Sized-since :
    {env : Env} {resp : HandshakeResponse} {dev : Bytes} {start h : History} {full : Bool}
    → Emits Any start h
    → Sized env resp dev h full
    → Sized env resp dev start full
Sized-since e s = record {
  fs = s.fs;
  from = s.from;
  since = Emits-trans e s.since;
  detected = s.detected;
  why = Why-since e s.why;
}

module _ (env : Env) (client : Client) (resp : HandshakeResponse) where
  shrink-Why :
      (dev fs : Bytes) (o : equal fs (codes "swap") ≡ false) (g : History) (full : Bool)
      → is_resizable resp ≡ true
      → ((attempt (shrink env dev fs) >>= λ r. pure (not_shrunk r)) g).0 ≡ ok full
      → Why env resp dev fs g full
  unfolding ◌>>=◌ attempt pure not_shrunk
  shrink-Why dev fs o g full y e = elim (Result-cases (shrink env dev fs g).0) [
    | inl (s, q) ↦ elim (Bool-cases s) [
      | inl t ↦
          let same : false ≡ full = ok-injective (rw t at (rw q at e)) in
          rw (sym same) (shrunk o g nothing y (q ∙ ap ok t))
      | inr f ↦
          let same : true ≡ full = ok-injective (rw f at (rw q at e)) in
          rw (sym same) (unshrunk o g nothing y (λ p. cc (p, q, f)))
    ]
    | inr (x, q) ↦
        let same : true ≡ full = ok-injective (rw q at e) in
        rw (sym same) (unshrunk o g nothing y (λ p. cc (p, q)))
  ]

  cleaned :
      (dev fs : Bytes)
      → Adds Any (branch (equal fs (codes "ntfs")) (Imaging.clean_ntfs env dev) (pure tt))
  cleaned dev fs = Adds-branch _ _ _ (clean_ntfs-Adds env (λ c. tt) dev) (Adds-pure tt)

  prepare-Why :
      (dev fs : Bytes) (o : equal fs (codes "swap") ≡ false) (h : History) (full : Bool)
      → is_resizable resp ≡ true
      → (prepare env client resp dev fs h).0 ≡ ok full
      → Why env resp dev fs h full
  unfolding prepare branch pure
  prepare-Why dev fs o h full y e =
      let (_, _, w) =
        bind-eq-ok (branch (equal fs (codes "ntfs")) (Imaging.clean_ntfs env dev) (pure tt)) _ h
          e in
      let e1 = rw w at e in
      elim (Bool-cases (can_shrink fs)) [
        | inl c ↦
            Why-since (anything _ h (cleaned dev fs)) (shrink-Why dev fs o _ full y (rw c at e1))
        | inr n ↦
            let same : true ≡ full = ok-injective (rw n at e1) in rw (sym same) (unshrinkable o y n)
      ]

  image-Why :
      (dev fs : Bytes) (o : equal fs (codes "swap") ≡ false) (h : History) (full : Bool)
      → (branch (is_resizable resp) (prepare env client resp dev fs) (pure false) h).0 ≡ ok full
      → Why env resp dev fs h full
  unfolding branch pure
  image-Why dev fs o h full e = elim (Bool-cases (is_resizable resp)) [
    | inl y ↦ prepare-Why dev fs o h full y (rw y at e)
    | inr n ↦ let same : false ≡ full = ok-injective (rw n at e) in rw (sym same) (rigid n)
  ]

  -- a round notes the partition as its shrink went
  pub round-Sized :
      (n : ℕ) (dev : Bytes) (fixed more : List ℕ) (h : History)
      → (capture_part env client resp n dev fixed h).0 ≡ ok more
      → (full : Bool) × (note_fixed full fixed n ≡ more) × Sized env resp dev h full
  unfolding capture_part branch pure note_fixed
  round-Sized n dev fixed more h e =
      let (fs, q, w) = bind-eq-ok (detect_filesystem env dev) _ h e in
      let g = (detect_filesystem env dev h).1 in
      let (_, _, w1) = bind-eq-ok (refuse_bitlocker env client resp n dev fs) _ g (rw w at e) in
      let e2 = rw w1 at (rw w at e) in
      let sized : (full : Bool) → Why env resp dev fs h full → Sized env resp dev h full =
        (λ full why. record { fs = fs; from = h; since = nothing; detected = q; why = why }) in
      elim (Bool-cases (equal fs (codes "swap"))) [
        | inl y ↦
            let (_, _, w2) = bind-eq-ok (upload_sentinel env client resp n dev) _ _ (rw y at e2) in
            (false, ok-injective (rw w2 at (rw y at e2)), sized false (swap y))
        | inr o ↦
            let e3 = rw o at e2 in
            let (full, p, w2) =
              bind-eq-ok (branch (is_resizable resp) (prepare env client resp dev fs) (pure false))
                _ _ e3 in
            let (_, _, w3) = bind-eq-ok (upload_image env client resp n dev fs) _ _ (rw w2 at e3) in
            (
              full,
              ok-injective (rw w3 at (rw w2 at e3)),
              sized full (
                  Why-since (guard_since env client resp n dev fs h) (image-Why dev fs o _ full p)),
            )
      ]
