-- ===== src/Partition/RoundTrip.antt =====
-- The tables that agent/internal/partition/partition.go writes as JSON and base64, read back.
use fos_next.Prelude.{
  ap, ◌∙◌, ℕ, zero, suc, ◌<◌, [], ◌∷◌, none, Bytes, ok, ◌≡◌, refl, ap, arith, All, length,
}
use fos_next.Strings.{equal}
use fos_next.Base64
use fos_next.Base64.RoundTrip.{IsByte, decode-encode}
use fos_next.Wire.{table_mbr, table_gpt, TableBlob, Codec}
use fos_next.World.{
  Syscall, call, sys, Reply, History, Env, pure, fail, branch, match_result, match_option, ◌>>=◌,
  sys, checked, try, wrapped,
}
use fos_next.World.Gives.{wrapped-eq-ok}
use fos_next.Partition.{
  fill, is_short, restore_sgdisk_raw, decode64, restore_gpt, restore_mbr, write_mbr, restore,
}

-- ASCII text
abbrev pub IsText : Bytes → Type 0
IsText = All (λ c. c < 128)

-- What `encoding/json` promises of this blob: text is read back as it was written.
abbrev pub ReadsBack : Codec → Type 0
ReadsBack codec =
    (tb : TableBlob)
    → IsText tb.type
    → IsText tb.sgdisk
    → IsText tb.sfdisk
    → IsText tb.mbr_raw
    → codec.unmarshal_table (codec.marshal_table tb) ≡ ok tb

letter-lt : (v : ℕ) → Base64.letter v < 128
unfolding Base64.letter
letter-lt v = ground arith

encode-IsText : (s : Bytes) → IsText (Base64.encode s)
unfolding Base64.encode
encode-IsText [] = tt
encode-IsText (a ∷ []) = (letter-lt _, (letter-lt _, (omega arith, (omega arith, tt))))
encode-IsText (a ∷ b ∷ []) = (letter-lt _, (letter-lt _, (letter-lt _, (omega arith, tt))))
encode-IsText (a ∷ b ∷ c ∷ rest) =
    (letter-lt _, (letter-lt _, (letter-lt _, (letter-lt _, encode-IsText rest))))

length-fill : (n : ℕ) (s : Bytes) → length (fill n s) ≡ n
unfolding fill
length-fill zero s = refl
length-fill (suc n) [] = ap suc (length-fill n [])
length-fill (suc n) (c ∷ s) = ap suc (length-fill n s)

fill-IsByte : (n : ℕ) (s : Bytes) → All IsByte s → All IsByte (fill n s)
unfolding fill
fill-IsByte zero s h = tt
fill-IsByte (suc n) [] h = (omega arith, fill-IsByte n [] h)
fill-IsByte (suc n) (c ∷ s) h = (h.0, fill-IsByte n s h.1)

module _ (env : Env) (law : ReadsBack env.codec) where
  pub restore-gpt :
      (raw : Bytes)
      → All IsByte raw
      → (disk : Bytes) (h : History)
      → restore env disk
          (env.codec.marshal_table
            (record { type = table_gpt; sgdisk = Base64.encode raw; sfdisk = []; mbr_raw = [] }))
          h
        ≡ restore_sgdisk_raw env disk raw h
  unfolding restore restore_gpt decode64 match_result match_option branch equal ◌>>=◌ pure
  restore-gpt raw bytes disk h = rw (
    law (record { type = table_gpt; sgdisk = Base64.encode raw; sfdisk = []; mbr_raw = [] })
        (omega arith) (encode-IsText raw) tt tt,
    decode-encode raw bytes,
  )

  pub restore-mbr :
      (raw dump : Bytes)
      → All IsByte raw
      → IsText dump
      → (disk : Bytes) (h : History)
      → restore env disk
          (env.codec.marshal_table (record {
            type = table_mbr;
            sgdisk = [];
            sfdisk = dump;
            mbr_raw = Base64.encode (fill 512 raw);
          }))
          h
        ≡ write_mbr env disk (fill 512 raw) dump h
  unfolding restore restore_mbr decode64 match_result match_option branch equal ◌>>=◌ pure is_short
  restore-mbr raw dump bytes text disk h = rw (
    law
        (record {
          type = table_mbr;
          sgdisk = [];
          sfdisk = dump;
          mbr_raw = Base64.encode (fill 512 raw);
        })
        (omega arith) tt text (encode-IsText (fill 512 raw)),
    decode-encode (fill 512 raw) (fill-IsByte 512 raw bytes),
    length-fill,
  )

  checked-eq-ok :
      (r : Reply) (h : History) {v : Bytes}
      → (checked env r h).0 ≡ ok v
      → (r.fault ≡ none) × (r.out ≡ v)
  unfolding checked match_option pure fail
  checked-eq-ok r h e = ground arith

  checked_still : (r : Reply) (h : History) → (checked env r h).1 ≡ h
  unfolding checked match_option pure fail
  checked_still r h = ground arith

  -- A call whose error is wrapped returns the output of the call, and adds the call.
  pub try-eq-ok :
      (context : Bytes) (c : Syscall) (h : History) {v : Bytes}
      → (wrapped context (try env c) h).0 ≡ ok v
      → ((env.answer h c).out ≡ v) × ((wrapped context (try env c) h).1 ≡ call c ∷ h)
  unfolding try ◌>>=◌ sys
  try-eq-ok context c h e =
      let (inner, same) = wrapped-eq-ok context (try env c) h e in
      (
        (checked-eq-ok (env.answer h c) _ inner).1,
        same ∙ checked_still (env.answer h c) (call c ∷ h),
      )
