-- ===== src/FilePayload/Writing/ReadBack.antt =====
-- What `ReadAndRemoveFilePayload` of memrpc/src/core/file_payload.cpp reads from a file that keeps its content.
use mathlib.Core.Path.{subst}
use mathlib.Core.List.{append-nil, append_assoc}
use mem.Prelude.{
  take_self, ℕ, zero, suc, ◌-◌, ◌≡◌, ◌≤◌, ◌<◌, refl, sym, ap, ◌∙◌, Bool, true, false, Option, none,
  some, List, [], ◌∷◌, ◌++◌, if◌then◌else◌, ltb, length, take, drop, arith, length-append,
  length-take, length-drop, drop-append, eq→==,
}
use mem.FilePayload.{FilePayloadRef, max_file_payload_bytes}
use mem.FilePayload.Files.{
  Posix, is_admissible, after_read, read_rest, read_all, consume, read_and_remove_file_payload,
}
use mem.FilePayload.Writing.{Maker}
use mem.FilePayload.Writing.Wrote.{false-ne-true, KeepsContent, take-drop}

pub below : (limit n : ℕ) → ltb limit n ≡ false → n ≤ limit
below limit n h = ground arith

pub not_above : (limit n : ℕ) → n ≤ limit → ltb limit n ≡ false
not_above limit n h = ground arith

module _ {Fs : Type 0} (posix : Posix Fs) (maker : Maker Fs)
    (content : List ℕ → Fs → Option (List ℕ)) (law : KeepsContent posix maker content) where
  -- A part of the loop of `ReadAll` that gets the rest of the file.
  Gets : List ℕ → List ℕ → Fs → Option (List ℕ) × Fs → Type 0
  Gets p c fs r = content p fs ≡ some c → r.0 ≡ some c

  after_read-Gets :
      (p c got l : List ℕ) (x m : ℕ) (fs : Fs) (next : ℕ → List ℕ → Fs → Option (List ℕ) × Fs)
      → c ≡ got ++ (x ∷ l)
      → m ≤ length l
      → ((g r : List ℕ) → c ≡ g ++ r → length r ≤ length l → Gets p c fs (next (length r) g fs))
      → Gets p c fs (after_read posix (suc (length l)) got next (some (take (suc m) (x ∷ l))) fs)
  after_read-Gets p c got l x m fs next split small more =
      let short : length (take m l) ≤ length l = omega (arith, length-take m l) in
      let whole : take (length l) (take m l) ≡ take m l = take_self (take m l) (length l) short in
      let left : length (drop m l) ≡ suc (length l) - suc (length (take m l)) =
        omega (arith, length-drop m l, length-take m l) in
      let split' : c ≡ (got ++ (x ∷ take m l)) ++ drop m l =
        split
        ∙ ap (λ (t : List ℕ). got ++ (x ∷ t)) (sym (take-drop m l))
        ∙ sym (append_assoc got (x ∷ take m l) (drop m l)) in
      rw whole (
        subst (λ (k : ℕ). Gets p c fs (next k (got ++ (x ∷ take m l)) fs)) left
          (more (got ++ (x ∷ take m l)) (drop m l) split' (omega (arith, length-drop m l))))

  rest-Gets :
      (rounds : ℕ) (p c got rest : List ℕ) (fs : Fs)
      → c ≡ got ++ rest
      → length rest ≤ rounds
      → Gets p c fs (read_rest posix rounds p (length rest) got fs)
  unfolding Gets
  rest-Gets rounds p c got [] fs split enough here = ap some (sym (split ∙ append-nil got))
  rest-Gets zero p c got (x ∷ rest) fs split enough here = absurd (omega arith)
  rest-Gets (suc rounds) p c got (x ∷ rest) fs split enough here =
      let before : length got < length c =
        omega (arith, ap length split, length-append got (x ∷ rest)) in
      let ((n, small, answer), after) =
        law.reads p c (length got) (suc (length rest)) fs here before (omega arith) in
      let shown : drop (length got) c ≡ x ∷ rest =
        ap (λ (l : List ℕ). drop (length got) l) split ∙ drop-append got (x ∷ rest) in
      let next = read_rest posix rounds p in
      let fs' = (posix.read p (length got) (suc (length rest)) fs).1 in
      let Result : Option (List ℕ) → Type 0 =
        λ o. (after_read posix (suc (length rest)) got next o fs').0 ≡ some c in
      subst Result (sym (answer ∙ ap (λ (l : List ℕ). some (take (suc n) l)) shown)) (
        after_read-Gets p c got rest x n fs' next split (omega (arith, small))
          (λ g r split short. rest-Gets rounds p c g r fs' split (omega (arith, short, enough)))
          after)

  -- Reading a file of the size that the reference announces, and removing it, gives its content.
  consume-content :
      (dir c : List ℕ) (ref : FilePayloadRef) (fs : Fs)
      → content ref.path fs ≡ some c
      → ref.size ≡ length c
      → length c ≤ max_file_payload_bytes
      → (consume posix dir ref (true, fs)).0 ≡ some c
  unfolding read_all Gets
  consume-content dir c ref fs here size small =
      let sized = law.sizes ref.path c fs here in
      let read = rest-Gets (length c) ref.path c [] c fs refl (omega arith) here in
      let by_size : Option ℕ → Option (List ℕ) × Fs = elim [
        | none ↦ (none, fs)
        | some size ↦
            if ltb max_file_payload_bytes size
            then (none, fs)
            else read_rest posix size ref.path size [] fs
      ] in
      let Result : Option ℕ → Type 0 = λ o. (by_size o).0 ≡ some c in
      let all_read : (read_all posix ref.path fs).0 ≡ some c =
        subst Result (sym sized) (rw (not_above max_file_payload_bytes (length c) small) read) in
      rw (all_read, eq→== {a = length c} {b = ref.size} (sym size)) refl

  opened-content :
      (dir c : List ℕ) (ref : FilePayloadRef) (o : Bool × Fs)
      → o.0 ≡ true
      → content ref.path o.1 ≡ some c
      → ref.size ≡ length c
      → length c ≤ max_file_payload_bytes
      → (consume posix dir ref o).0 ≡ some c
  opened-content dir c ref (true, fs) e here size small =
      consume-content dir c ref fs here size small
  opened-content dir c ref (false, fs) e here size small = absurd (false-ne-true e)

  pub resolved-content :
      (dir c : List ℕ) (ref : FilePayloadRef) (fs : Fs)
      → is_admissible dir ref ≡ true
      → content ref.path fs ≡ some c
      → ref.size ≡ length c
      → length c ≤ max_file_payload_bytes
      → (read_and_remove_file_payload posix dir ref fs).0 ≡ some c
  unfolding read_and_remove_file_payload
  resolved-content dir c ref fs good here size small =
      let (opened, after) = law.opens ref.path c fs here in
      rw good (opened-content dir c ref (posix.open_read ref.path fs) opened after size small)
