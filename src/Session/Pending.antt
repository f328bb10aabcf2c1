-- ===== src/Session/Pending.antt =====
-- `RemovePendingFilePayloads` of memrpc/src/core/session.cpp: the payload files of the entries that wait
-- in the rings.
use mem.Prelude.{
  ℕ, zero, suc, ◌%◌, not, ◌&&◌, Option, none, some, List, if◌then◌else◌, ◌==◌, min, sub32, add32,
  get_elem?,
}
use mem.Types.{RequestRingEntry, ResponseRingEntry}
use mem.Ring.{Ring}
use mem.FilePayload.Files.{Posix, remove_file_payload_from_transport}
use mem.Session.{World}
use mem.Session.Queues.{high_request, normal_request, resolve_request_ring, resolve_response_ring}

module _ {Fs : Type 0} (posix : Posix Fs) (dir : List ℕ) where
  unfoldable pub remove_request_payload : RequestRingEntry → Fs → Fs
  remove_request_payload e fs =
      (remove_file_payload_from_transport posix dir (some e.payload) e.payload_size e.payload_kind
        fs).1

  unfoldable pub remove_response_payload : ResponseRingEntry → Fs → Fs
  remove_response_payload e fs =
      (remove_file_payload_from_transport posix dir (some e.payload) e.result_size e.payload_kind
        fs).1

  module _ {E : Type 0} (remove : E → Fs → Fs) where
    abbrev remove_slot : Option E → Fs → Fs
    remove_slot none fs = fs
    remove_slot (some e) fs = remove e fs

    -- The loop over `count` entries, from the position `i` on.
    abbrev pub remove_entries : ℕ → ℕ → Ring E → Fs → Fs
    remove_entries zero i r fs = fs
    remove_entries (suc count) i r fs =
        remove_entries count (suc i) r
          (remove_slot (get_elem? r.entries (add32 r.cursor.head i % r.cursor.capacity)) fs)

    -- `RemovePendingFilePayloadsFromRing`
    unfoldable pub remove_pending_from_ring : Option (Ring E) → Fs → Fs
    remove_pending_from_ring none fs = fs
    remove_pending_from_ring (some r) fs =
        let count = min (sub32 r.cursor.tail r.cursor.head) r.cursor.capacity in
        if r.cursor.capacity == 0 then fs else remove_entries count 0 r fs

  unfoldable pub remove_pending_file_payloads : World → Fs → Fs
  remove_pending_file_payloads w fs =
      if not (w.session.has_header && w.session.mapped)
      then fs
      else remove_pending_from_ring remove_response_payload (resolve_response_ring w) (
          remove_pending_from_ring remove_request_payload (resolve_request_ring normal_request w) (
            remove_pending_from_ring remove_request_payload (resolve_request_ring high_request w)
              fs))
