-- ===== src/FilePayload/Writing/RoundTrip.antt =====
-- A payload that the sending side of memrpc/src/core/file_payload.cpp prepares, and what the receiving side
-- resolves.
use mathlib.Core.Path.{subst}
use mem.Prelude.{
  ℕ, ◌≡◌, ◌≤◌, ◌<◌, ◌^◌, refl, sym, ap, ◌∙◌, Bool, true, false, Option, none, some, List, ◌++◌,
  if◌then◌else◌, ltb, leb, length, is_empty, if-kept, Bool-cases, inl, inr, arith, take-append,
}
use mem.FilePayload.{
  FilePayloadRef, payload_kind_inline, payload_kind_file_ref, max_file_payload_bytes,
}
use mem.FilePayload.Envelope.{
  encode_file_payload_envelope, decode_file_payload_envelope, envelope_roundtrip,
}
use mem.FilePayload.Files.{
  Posix, has_dot_dot, is_admissible, resolve_decoded, resolve_file_payload_from_transport,
}
use mem.FilePayload.Writing.{
  Maker, Prepared, Stamp, make_file_payload_path, write_file_payload, send_envelope, send_written,
  prepare_file_payload_for_transport,
}
use mem.FilePayload.Writing.Paths.{path-inside, length-path, path-named}
use mem.FilePayload.Writing.ReadBack.{below, not_above, resolved-content}
use mem.FilePayload.Writing.Wrote.{KeepsContent, Wrote, ensured-Wrote, none-ne-some, some-inj}

module _ {Fs : Type 0} (posix : Posix Fs) (maker : Maker Fs)
    (content : List ℕ → Fs → Option (List ℕ)) (law : KeepsContent posix maker content) where
  abbrev limited : Bool → List ℕ → Fs → Fs → Prepared Fs
  limited long bs fs fs' = if long then (none, fs') else (some (bs, payload_kind_file_ref), fs)

  sent :
      (long : Bool) (bs bytes : List ℕ) (kind : ℕ) (fs fs' : Fs)
      → (limited long bs fs fs').0 ≡ some (bytes, kind)
      → (bs ≡ bytes) × (payload_kind_file_ref ≡ kind) × ((limited long bs fs fs').1 ≡ fs)
  sent true bs bytes kind fs fs' e = absurd (none-ne-some e)
  sent false bs bytes kind fs fs' e =
      let same = some-inj e in
      (ap (λ (p : List ℕ × ℕ). p.0) same, ap (λ (p : List ℕ × ℕ). p.1) same, refl)

  -- A payload comes back from what was prepared, whatever lies in memory behind the transported bytes.
  Returns : List ℕ → List ℕ → Prepared Fs → Type 0
  Returns dir payload p =
      (bytes beyond : List ℕ) (kind : ℕ)
      → p.0 ≡ some (bytes, kind)
      → (resolve_file_payload_from_transport posix dir (some (bytes ++ beyond)) (length bytes) kind
          p.1).0
        ≡ some payload

  -- The receiver of an envelope that was sent.
  envelope-resolves :
      (dir payload bs beyond : List ℕ) (ref : FilePayloadRef) (fs : Fs)
      → is_admissible dir ref ≡ true
      → length ref.path < 2 ^ 32
      → is_empty ref.path ≡ false
      → content ref.path fs ≡ some payload
      → ref.size ≡ length payload
      → length payload ≤ max_file_payload_bytes
      → encode_file_payload_envelope ref ≡ some bs
      → (resolve_file_payload_from_transport posix dir
          (some (bs ++ beyond))
          (length bs)
          payload_kind_file_ref
          fs).0
        ≡ some payload
  unfolding resolve_file_payload_from_transport
  envelope-resolves dir payload bs beyond ref fs good short named here size small encoded =
      let (bs', encoded', decoded) = envelope_roundtrip ref beyond (omega arith) short named in
      let same : bs' ≡ bs = some-inj (sym encoded' ∙ encoded) in
      let decoded' : decode_file_payload_envelope (some (bs ++ beyond)) (length bs) ≡ some ref =
        subst
          (λ (b : List ℕ). decode_file_payload_envelope (some (b ++ beyond)) (length b) ≡ some ref)
          same decoded in
      subst (λ (o : Option FilePayloadRef). (resolve_decoded posix dir o fs).0 ≡ some payload)
        (sym decoded')
        (resolved-content posix maker content law dir payload ref fs good here size small)

  envelope-Returns :
      (dir payload : List ℕ) (limit : ℕ) (ref : FilePayloadRef) (o : Option (List ℕ)) (fs : Fs)
      → is_admissible dir ref ≡ true
      → length ref.path < 2 ^ 32
      → is_empty ref.path ≡ false
      → content ref.path fs ≡ some payload
      → ref.size ≡ length payload
      → length payload ≤ max_file_payload_bytes
      → encode_file_payload_envelope ref ≡ o
      → Returns dir payload (send_envelope posix maker dir limit ref o fs)
  unfolding Returns
  envelope-Returns dir payload limit ref none fs good short named here size small encoded bytes
        beyond kind e =
      absurd (none-ne-some e)
  envelope-Returns dir payload limit ref (some bs) fs good short named here size small encoded bytes
        beyond kind e =
      let (same, same_kind, same_fs) = sent (ltb limit (length bs)) bs bytes kind fs _ e in
      let resolved =
        envelope-resolves dir payload bs beyond ref fs good short named here size small encoded in
      let Result : List ℕ → ℕ → Fs → Type 0 = λ b k f.
        (resolve_file_payload_from_transport posix dir (some (b ++ beyond)) (length b) k f).0
        ≡ some payload in
      subst (Result bytes kind) (sym same_fs) (
        subst (λ (k : ℕ). Result bytes k fs) same_kind
          (subst (λ (b : List ℕ). Result b payload_kind_file_ref fs) same resolved))

  written-Returns :
      (dir payload : List ℕ) (stamp : Stamp) (limit : ℕ) (w : Option FilePayloadRef × Fs)
      → has_dot_dot dir ≡ false
      → length dir ≤ 4096
      → length payload ≤ max_file_payload_bytes
      → Wrote posix maker content law (make_file_payload_path dir stamp) payload w
      → Returns dir payload (send_written posix maker dir limit w)
  unfolding Returns Wrote is_admissible
  written-Returns dir payload stamp limit (none, fs) plain short small wrote bytes beyond kind e =
      absurd (none-ne-some e)
  written-Returns dir payload stamp limit (some ref, fs) plain short small wrote bytes beyond kind
        e =
      let path = make_file_payload_path dir stamp in
      let made : FilePayloadRef = record { path = path; size = length payload } in
      let (same, here) = wrote ref refl in
      let good : is_admissible dir made ≡ true =
        rw
          (
            path-named dir stamp,
            not_above max_file_payload_bytes (length payload) small,
            path-inside dir stamp plain,
          )
          refl in
      subst
        (λ (r : FilePayloadRef).
          Returns dir payload (send_written posix maker dir limit (some r, fs)))
        (sym same)
        (envelope-Returns dir payload limit made (encode_file_payload_envelope made) fs good
          (omega (arith, length-path dir stamp, short)) (path-named dir stamp) here refl small refl)
        bytes beyond kind e

  -- A payload that is not written goes inline.
  inline-Returns :
      (dir payload : List ℕ) (fs : Fs)
      → Returns dir payload (some (payload, payload_kind_inline), fs)
  unfolding Returns resolve_file_payload_from_transport
  inline-Returns dir payload fs bytes beyond kind e =
      let same = some-inj e in
      let Result : List ℕ → ℕ → Type 0 = λ b k.
        (resolve_file_payload_from_transport posix dir (some (b ++ beyond)) (length b) k fs).0
        ≡ some payload in
      subst (λ (k : ℕ). Result bytes k) (ap (λ (p : List ℕ × ℕ). p.1) same)
        (subst (λ (b : List ℕ). Result b payload_kind_inline) (ap (λ (p : List ℕ × ℕ). p.0) same)
          (ap some (take-append payload beyond)))

  nothing-Returns : (dir payload : List ℕ) (fs : Fs) → Returns dir payload (none, fs)
  unfolding Returns
  nothing-Returns dir payload fs bytes beyond kind e = absurd (none-ne-some e)

  prepare-Returns :
      (dir payload : List ℕ) (stamp : Stamp) (limit : ℕ) (fs : Fs)
      → has_dot_dot dir ≡ false
      → length dir ≤ 4096
      → Returns dir payload
          (prepare_file_payload_for_transport posix maker dir stamp payload limit fs)
  unfolding prepare_file_payload_for_transport write_file_payload
  prepare-Returns dir payload stamp limit fs plain short =
      if-kept (leb (length payload) limit) (Returns dir payload) (inline-Returns dir payload fs)
        (elim (Bool-cases (ltb max_file_payload_bytes (length payload))) [
          | inl long ↦ rw long (nothing-Returns dir payload _)
          | inr small ↦ rw small (
              written-Returns dir payload stamp limit _ plain short
                (below max_file_payload_bytes (length payload) small)
                (ensured-Wrote posix maker content law dir payload stamp _))
        ])

-- A payload comes back. Where the directory's path has no `..` and at most 4096 bytes, and the files keep
-- what is written to them and can be read, whatever `PrepareFilePayloadForTransport` puts into an entry
-- for a payload, inline or an envelope, `ResolveFilePayloadFromTransport` gives the payload for it, whatever
-- lies in the entry behind the bytes.
pub prepare_resolve_roundtrip :
    {Fs : Type 0} (posix : Posix Fs) (maker : Maker Fs) (content : List ℕ → Fs → Option (List ℕ))
    (dir payload bytes beyond : List ℕ) (stamp : Stamp) (limit kind : ℕ) (fs : Fs)
    → KeepsContent posix maker content
    → has_dot_dot dir ≡ false
    → length dir ≤ 4096
    → let (prepared, fs') =
        prepare_file_payload_for_transport posix maker dir stamp payload limit fs in
      prepared ≡ some (bytes, kind)
      → (resolve_file_payload_from_transport posix dir
          (some (bytes ++ beyond))
          (length bytes)
          kind
          fs').0
        ≡ some payload
unfolding Returns
prepare_resolve_roundtrip posix maker content dir payload bytes beyond stamp limit kind fs law plain
      short e =
    prepare-Returns posix maker content law dir payload stamp limit fs plain short bytes beyond kind
      e
