-- ===== src/FilePayload/Writing/Wrote.antt =====
-- What `WriteFilePayload` of memrpc/src/core/file_payload.cpp leaves in the file that it makes.
use mathlib.Core.List.{append-nil, append_assoc}
use mem.Prelude.{
  ℕ, zero, suc, ◌≡◌, ◌≢◌, ◌<◌, refl, sym, ap, ◌∙◌, Bool, true, false, Option, none, some, List, [],
  ◌∷◌, ◌++◌, if◌then◌else◌, ◌==◌, length, take, drop,
}
use mem.FilePayload.{FilePayloadRef}
use mem.FilePayload.Files.{Posix, settle}
use mem.FilePayload.Writing.{
  Maker, Made, Stamp, make_file_payload_path, after_write, write_rest, write_all, after_close,
  fill_created, write_ensured,
}

-- What is written is read: the content of the file at a path, and how the calls that succeed change and
-- report it. A read of bytes that are there gives one of them at least.
pub record KeepsContent {Fs : Type 0} (posix : Posix Fs) (maker : Maker Fs)
    (content : List ℕ → Fs → Option (List ℕ)) : Type 0 where
  pub creates :
      (p : List ℕ) (fs : Fs)
      → (maker.create p fs).0 ≡ true
      → content p (maker.create p fs).1 ≡ some []
  pub writes :
      (p left c : List ℕ) (n : ℕ) (fs : Fs)
      → content p fs ≡ some c
      → settle (maker.write p left fs).0 ≡ some n
      → content p (maker.write p left fs).1 ≡ some (c ++ take n left)
  pub closes : (p : List ℕ) (fs : Fs) → content p (maker.close_written p fs).1 ≡ content p fs
  pub opens :
      (p c : List ℕ) (fs : Fs)
      → content p fs ≡ some c
      → ((posix.open_read p fs).0 ≡ true) × (content p (posix.open_read p fs).1 ≡ some c)
  pub sizes :
      (p c : List ℕ) (fs : Fs) → content p fs ≡ some c → posix.file_size p fs ≡ some (length c)
  pub reads :
      (p c : List ℕ) (offset count : ℕ) (fs : Fs)
      → content p fs ≡ some c
      → offset < length c
      → 0 < count
      → ((n : ℕ) × (n < count)
          × (settle (posix.read p offset count fs).0 ≡ some (take (suc n) (drop offset c))))
        × (content p (posix.read p offset count fs).1 ≡ some c)

pub none-ne-some : {A : Type 0} {a : A} → none ≢ some a
none-ne-some = cc

pub false-ne-true : false ≢ true
false-ne-true = cc

pub some-inj : {A : Type 0} {a b : A} → some a ≡ some b → a ≡ b
some-inj = cc

pub take-drop : (n : ℕ) (xs : List ℕ) → take n xs ++ drop n xs ≡ xs
take-drop zero xs = refl
take-drop (suc n) [] = refl
take-drop (suc n) (x ∷ xs) = ap (◌∷◌ x) (take-drop n xs)

-- A call that succeeds has not stopped at its test.
goes_on :
    {Fs : Type 0} (stop : Bool) (fs : Fs) (r : Bool × Fs) (Q : Fs → Type 0)
    → (r.0 ≡ true → Q r.1)
    → (if stop then (false, fs) else r).0 ≡ true
    → Q (if stop then (false, fs) else r).1
goes_on true fs r Q f e = absurd (false-ne-true e)
goes_on false fs r Q f e = f e

module _ {Fs : Type 0} (posix : Posix Fs) (maker : Maker Fs)
    (content : List ℕ → Fs → Option (List ℕ)) (law : KeepsContent posix maker content) where
  -- A part of the loop of `WriteAll` that appends the bytes where it succeeds.
  Appends : List ℕ → List ℕ → List ℕ → Fs → Bool × Fs → Type 0
  Appends p left c fs r = content p fs ≡ some c → r.0 ≡ true → content p r.1 ≡ some (c ++ left)

  written-Appends :
      (p left c : List ℕ) (fs fs' : Fs) (o : Option ℕ) (next : List ℕ → Fs → Bool × Fs)
      → ((l d : List ℕ) (f : Fs) → Appends p l d f (next l f))
      → ((n : ℕ) → o ≡ some n → content p fs' ≡ some (c ++ take n left))
      → Appends p left c fs (after_write posix maker left next o fs')
  unfolding Appends
  written-Appends p left c fs fs' none next more grown here e = absurd (false-ne-true e)
  written-Appends p left c fs fs' (some n) next more grown here e =
      goes_on (n == 0) fs' (next (drop n left) fs') (λ f. content p f ≡ some (c ++ left))
        (λ e.
          more (drop n left) (c ++ take n left) fs' (grown n refl) e
          ∙ ap some (append_assoc c (take n left) (drop n left) ∙ ap (◌++◌ c) (take-drop n left)))
        e

  rest-Appends :
      (rounds : ℕ) (p left c : List ℕ) (fs : Fs)
      → Appends p left c fs (write_rest posix maker rounds p left fs)
  unfolding Appends
  rest-Appends rounds p [] c fs here e = here ∙ ap some (sym (append-nil c))
  rest-Appends zero p (x ∷ left) c fs here e = absurd (false-ne-true e)
  rest-Appends (suc rounds) p (x ∷ left) c fs here e =
      written-Appends p (x ∷ left) c fs (maker.write p (x ∷ left) fs).1
        (settle (maker.write p (x ∷ left) fs).0) (write_rest posix maker rounds p)
        (λ l d f. rest-Appends rounds p l d f)
        (λ n answer. law.writes p (x ∷ left) c n fs here answer) here e

  -- Where a file has been written, the reference names it, and the file holds the payload.
  unfoldable pub Wrote : List ℕ → List ℕ → Option FilePayloadRef × Fs → Type 0
  Wrote path payload w =
      (ref : FilePayloadRef)
      → w.0 ≡ some ref
      → (ref ≡ record { path = path; size = length payload }) × (content path w.1 ≡ some payload)

  closed-Wrote :
      (path payload : List ℕ) (written closed : Bool) (fs : Fs)
      → (written ≡ true → content path fs ≡ some payload)
      → Wrote path payload (after_close posix maker path (length payload) written (closed, fs))
  unfolding Wrote
  closed-Wrote path payload true true fs h ref e = (sym (some-inj e), h refl)
  closed-Wrote path payload true false fs h ref e = absurd (none-ne-some e)
  closed-Wrote path payload false closed fs h ref e = absurd (none-ne-some e)

  filled-Wrote :
      (path payload : List ℕ) (created : Bool) (fs : Fs)
      → (created ≡ true → content path fs ≡ some [])
      → Wrote path payload (fill_created posix maker path payload (created, fs))
  unfolding Wrote write_all Appends
  filled-Wrote path payload false fs h ref e = absurd (none-ne-some e)
  filled-Wrote path payload true fs h ref e =
      let w = write_all posix maker path payload fs in
      closed-Wrote path payload w.0 (maker.close_written path w.1).0
        (maker.close_written path w.1).1
        (λ e. law.closes path w.1 ∙ rest-Appends (length payload) path payload [] fs (h refl) e) ref
        e

  pub ensured-Wrote :
      (dir payload : List ℕ) (stamp : Stamp) (m : Made Fs)
      → Wrote
          (make_file_payload_path dir stamp)
          payload
          (write_ensured posix maker dir stamp payload m)
  unfolding Wrote
  ensured-Wrote dir payload stamp (false, errno, fs) ref e = absurd (none-ne-some e)
  ensured-Wrote dir payload stamp (true, errno, fs) ref e =
      let path = make_file_payload_path dir stamp in
      filled-Wrote path payload (maker.create path fs).0 (maker.create path fs).1
        (law.creates path fs) ref e
