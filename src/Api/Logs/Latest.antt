-- ===== src/Api/Logs/Latest.antt =====
-- What the buffer of agent/internal/api/loghandler.go holds of the records logged before any flush.
use fos_next.Prelude.{
  ℕ, zero, suc, ◌-◌, ◌≤◌, true, false, List, [], ◌∷◌, ◌++◌, leb, length, drop, ◌≡◌, refl, sym, ap,
  ◌∙◌, arith, Bool-cases, inl, inr, length-drop, length-append, append_assoc, append-nil,
}
use fos_next.Wire.{LogEntry}
use fos_next.Api.Logs.{RemoteHandler, handle, remote_buffer_cap}

-- records one after the other
unfoldable pub handle_all : List LogEntry → RemoteHandler → RemoteHandler
handle_all [] h = h
handle_all (e ∷ es) h = handle_all es (handle e h)

-- the last 2000 of some entries
abbrev pub latest : List LogEntry → List LogEntry
latest es = drop (length es - remote_buffer_cap) es

drop-append : (n : ℕ) (xs ys : List LogEntry) → n ≤ length xs → drop n (xs ++ ys) ≡ drop n xs ++ ys
drop-append zero xs ys le = refl
drop-append (suc n) [] ys le = absurd (omega arith)
drop-append (suc n) (x ∷ xs) ys le = drop-append n xs ys (omega arith)

drop_one-drop : (n : ℕ) (xs : List LogEntry) → drop 1 (drop n xs) ≡ drop (suc n) xs
drop_one-drop zero [] = refl
drop_one-drop (suc n) [] = refl
drop_one-drop zero (x ∷ xs) = refl
drop_one-drop (suc n) (x ∷ xs) = drop_one-drop n xs

handle-latest :
    (xs : List LogEntry) (e : LogEntry) (h : RemoteHandler)
    → h.buf ≡ latest xs
    → (handle e h).buf ≡ latest (xs ++ e ∷ [])
unfolding handle
handle-latest xs e h q =
    let size = length-drop (length xs - 2000) xs in
    let longer = length-append xs (e ∷ []) in
    elim (Bool-cases (leb 2000 (length xs))) [
      | inl y ↦
          let full : leb 2000 (length (latest xs)) ≡ true = ground (arith, size) in
          let cut_at : length (xs ++ e ∷ []) - 2000 ≡ suc (length xs - 2000) =
            ground (arith, longer) in
          rw (q, full, cut_at)
            (ap (λ l. l ++ e ∷ []) (drop_one-drop (length xs - 2000) xs)
              ∙ sym (drop-append (suc (length xs - 2000)) xs (e ∷ []) (ground arith)))
      | inr n ↦
          let room : leb 2000 (length (latest xs)) ≡ false = ground (arith, size) in
          let none_cut : length (xs ++ e ∷ []) - 2000 ≡ 0 = ground (arith, longer) in
          let none_before : length xs - 2000 ≡ 0 = ground arith in
          rw (q, room, none_cut, none_before) refl
    ]

pub handle_all-latest :
    (xs es : List LogEntry) (h : RemoteHandler)
    → h.buf ≡ latest xs
    → (handle_all es h).buf ≡ latest (xs ++ es)
unfolding handle_all
handle_all-latest xs [] h q = q ∙ ap latest (sym (append-nil xs))
handle_all-latest xs (e ∷ es) h q =
    handle_all-latest (xs ++ e ∷ []) es (handle e h) (handle-latest xs e h q)
    ∙ ap latest (append_assoc xs (e ∷ []) es)

pub length-latest : (es : List LogEntry) → length (latest es) ≤ 2000
length-latest es = omega (arith, length-drop (length es - 2000) es)
