-- ===== src/Session/Attach/Outcome.antt =====
-- What `Session::Attach` (memrpc/src/core/session.cpp) leaves behind, on success and on every
-- failure.
use mem.Layout.Bounds.{validate-Accepted}
use mathlib.Core.List.{append-nil}
use mathlib.Core.Path.{subst}
use mem.Types.{
  invalid_argument, StatusCode-discrete, ok, BootstrapHandles, make_default_bootstrap_handles,
}
use mem.Layout.{Abi, compute_layout}
use mem.Session.{
  Session, client, server, StatusCode, AttachRole, SharedMemoryHeader, current_mapped_size,
  release_client_attachment, close_handles, reset, SharedMemory, World, Kernel, handle_fds,
  empty_session,
}
use mem.Session.Attach.{
  invalid_argument, attach_fd, attach, take_bootstrap_handles, claim, after_remap, after_map,
  try_acquire_client_attachment, adopt, remap_with_actual_layout, map_and_validate_header,
  header_config, header_is_valid, header_mapped,
}
use mem.Prelude.{
  none, refl, sym, ap, ◌∙◌, inl, inr, Option-cases, Option-cases, Option, ℕ, suc, ◌<◌, ◌≡◌, ◌≢◌,
  true, false, some, ◌++◌, arith,
}

-- A refused attachment: nothing stays mapped, every descriptor that was handed over is closed, and
-- the memory object is as it was.
pub record Refused (adopted : BootstrapHandles) (fresh w : World) : Type 0 where
  pub invalid : w.session.has_header ≡ false
  pub unmapped : w.session.mapped ≡ false
  pub no_handles : w.session.handles ≡ make_default_bootstrap_handles
  pub mappings_kept : w.mappings ≡ fresh.mappings
  pub handles_closed : w.closed ≡ fresh.closed ++ handle_fds adopted
  pub memory_kept : w.memory ≡ fresh.memory

-- A granted attachment: the whole object is mapped once, by the layout of its header, which passed
-- the checks for the file's size; the handles are kept open. A client has claimed the attachment
-- and owns it, and a server has changed nothing of the object.
pub record Attached (abi : Abi) (k : Kernel) (adopted : BootstrapHandles) (role : AttachRole)
    (fresh w : World) : Type 0 where
  pub has_header : w.session.has_header ≡ true
  pub mapped : w.session.mapped ≡ true
  pub handles_kept : w.session.handles ≡ adopted
  pub one_mapping : w.mappings ≡ suc fresh.mappings
  pub still_open : w.closed ≡ fresh.closed
  pub layout : w.session.layout ≡ compute_layout abi (header_config fresh.memory.header)
  pub mapped_size : w.session.mapped_size ≡ w.session.layout.total_size
  pub file_size : ℕ
  pub stat : k.layout_stat ≡ some file_size
  pub checked : header_is_valid abi fresh.memory.header file_size ≡ true
  pub memory : w.memory ≡ elim role [ client ↦ (claim k fresh).memory | server ↦ fresh.memory ]
  pub owner : w.session.owns_client_attachment ≡ elim role [ client ↦ true | server ↦ false ]

-- What the process has done before it maps anything: the old session is gone.
abbrev pub fresh_world : Kernel → SharedMemory → World → World
fresh_world k memory w = record (reset k w) { memory = memory }

map-Refused :
    (abi : Abi) (k : Kernel) (adopted : BootstrapHandles) (w : World)
    → 0 < abi.header_bytes
    → w.session ≡ empty_session
    → (map_and_validate_header abi k w).0 ≢ ok
    → Refused adopted w (close_handles adopted (map_and_validate_header abi k w).1)
unfolding map_and_validate_header reset close_handles release_client_attachment current_mapped_size
map-Refused abi k adopted w pos e refused = ground (arith, append-nil w.closed)

map_ok :
    (abi : Abi) (k : Kernel) (w : World)
    → (map_and_validate_header abi k w).0 ≡ ok
    → map_and_validate_header abi k w ≡ (ok, header_mapped abi w)
unfolding map_and_validate_header
map_ok abi k w done = ground arith

remap-Refused :
    (abi : Abi) (k : Kernel) (adopted : BootstrapHandles) (w : World)
    → 0 < abi.header_bytes
    → w.session ≡ empty_session
    → (remap_with_actual_layout abi k (header_mapped abi w)).0 ≢ ok
    → Refused adopted w
        (close_handles adopted (remap_with_actual_layout abi k (header_mapped abi w)).1)
unfolding remap_with_actual_layout reset close_handles release_client_attachment current_mapped_size
remap-Refused abi k adopted w pos e refused = ground (arith, append-nil w.closed)

-- Between the mapping of the whole object and the client's claim.
record IsReady (abi : Abi) (k : Kernel) (fresh w : World) : Type 0 where
  has_header : w.session.has_header ≡ true
  mapped : w.session.mapped ≡ true
  mappings : w.mappings ≡ suc fresh.mappings
  closed : w.closed ≡ fresh.closed
  memory : w.memory ≡ fresh.memory
  layout : w.session.layout ≡ compute_layout abi (header_config fresh.memory.header)
  size : w.session.mapped_size ≡ w.session.layout.total_size
  size_pos : 0 < w.session.mapped_size
  file_size : ℕ
  stat : k.layout_stat ≡ some file_size
  checked : header_is_valid abi fresh.memory.header file_size ≡ true

checked_pos :
    (abi : Abi) (h : SharedMemoryHeader) (file_size : ℕ)
    → 0 < abi.header_bytes
    → header_is_valid abi h file_size ≡ true
    → 0 < (compute_layout abi (header_config h)).total_size
unfolding header_is_valid
checked_pos abi h file_size pos checked =
    let a = validate-Accepted abi (header_config h) file_size (ground arith) in
    omega (arith, a.header_within)

remap-IsReady :
    (abi : Abi) (k : Kernel) (w : World) (size : ℕ)
    → 0 < abi.header_bytes
    → k.layout_stat ≡ some size
    → (remap_with_actual_layout abi k (header_mapped abi w)).0 ≡ ok
    → IsReady abi k w (remap_with_actual_layout abi k (header_mapped abi w)).1
unfolding remap_with_actual_layout
remap-IsReady abi k w size pos e done =
    let checked : header_is_valid abi w.memory.header size ≡ true = ground arith in
    let total = checked_pos abi w.memory.header size pos checked in
    record {
      has_header = ground arith;
      mapped = ground arith;
      mappings = ground arith;
      closed = ground arith;
      memory = ground arith;
      layout = ground arith;
      size = ground arith;
      size_pos = ground arith;
      file_size = size;
      stat = e;
      checked = checked;
    }

adopt-Refused :
    (abi : Abi) (k : Kernel) (handles : BootstrapHandles) (role : AttachRole) (fresh w : World)
    → IsReady abi k fresh w
    → (adopt k handles role w).0 ≢ ok
    → Refused handles fresh (adopt k handles role w).1
unfolding adopt try_acquire_client_attachment reset release_client_attachment current_mapped_size
adopt-Refused abi k handles role fresh w r refused = ground arith

adopt_done :
    (abi : Abi) (k : Kernel) (handles : BootstrapHandles) (role : AttachRole) (fresh w : World)
    → IsReady abi k fresh w
    → (adopt k handles role w).0 ≡ ok
    → Attached abi k handles role fresh (adopt k handles role w).1
unfolding adopt try_acquire_client_attachment
adopt_done abi k handles role fresh w r done = record {
  has_header = ground arith;
  mapped = ground arith;
  handles_kept = ground arith;
  one_mapping = ground arith;
  still_open = ground arith;
  layout = ground arith;
  mapped_size = ground arith;
  file_size = r.file_size;
  stat = r.stat;
  checked = r.checked;
  memory = ground arith;
  owner = ground arith;
}

-- The two halves of the outcome.
abbrev pub Outcome :
    Abi → Kernel → BootstrapHandles → AttachRole → World → StatusCode × World → Type 0
Outcome abi k adopted role fresh out =
    (out.0 ≡ ok → Attached abi k adopted role fresh out.1)
    × (out.0 ≢ ok → Refused adopted fresh out.1)

refuse :
    (abi : Abi) (k : Kernel) (adopted : BootstrapHandles) (role : AttachRole) (fresh : World)
    (status : StatusCode) (w : World)
    → status ≢ ok
    → Refused adopted fresh w
    → Outcome abi k adopted role fresh (status, w)
refuse abi k adopted role fresh status w bad r = (λ good. absurd (bad good), λ _. r)

after_remap-fail :
    (k : Kernel) (handles : BootstrapHandles) (role : AttachRole) (out : StatusCode × World)
    → out.0 ≢ ok
    → after_remap k handles role out ≡ (out.0, close_handles handles out.1)
unfolding after_remap
after_remap-fail k handles role (status, w) bad = ground arith

after_map-fail :
    (abi : Abi) (k : Kernel) (handles : BootstrapHandles) (role : AttachRole)
    (out : StatusCode × World)
    → out.0 ≢ ok
    → after_map abi k handles role out ≡ (out.0, close_handles handles out.1)
unfolding after_map
after_map-fail abi k handles role (status, w) bad = ground arith

after_remap-ok :
    (k : Kernel) (handles : BootstrapHandles) (role : AttachRole) (out : StatusCode × World)
    → out.0 ≡ ok
    → after_remap k handles role out ≡ adopt k handles role out.1
unfolding after_remap
after_remap-ok k handles role (status, w) good = ground arith

remap_stat :
    (abi : Abi) (k : Kernel) (w : World)
    → (remap_with_actual_layout abi k w).0 ≡ ok
    → (size : ℕ) × (k.layout_stat ≡ some size)
unfolding remap_with_actual_layout
remap_stat abi k w done = elim (Option-cases k.layout_stat) [
  | inl e ↦ absurd (ground arith)
  | inr found ↦ found
]

remap-Outcome :
    (abi : Abi) (k : Kernel) (adopted : BootstrapHandles) (role : AttachRole) (w : World)
    → 0 < abi.header_bytes
    → w.session ≡ empty_session
    → Outcome abi k adopted role w
        (after_remap k adopted role (remap_with_actual_layout abi k (header_mapped abi w)))
remap-Outcome abi k adopted role w pos e =
    let out = remap_with_actual_layout abi k (header_mapped abi w) in
    elim (StatusCode-discrete out.0 ok) [
      | yes done ↦
          let (size, stat) = remap_stat abi k (header_mapped abi w) done in
          let ready = remap-IsReady abi k w size pos stat done in
          subst (Outcome abi k adopted role w) (sym (after_remap-ok k adopted role out done)) (
            adopt_done abi k adopted role w out.1 ready,
            adopt-Refused abi k adopted role w out.1 ready,
          )
      | no bad ↦
          subst (Outcome abi k adopted role w) (sym (after_remap-fail k adopted role out bad)) (
            refuse abi k adopted role w out.0 (close_handles adopted out.1) bad
              (remap-Refused abi k adopted w pos e bad))
    ]

after_map-ok :
    (abi : Abi) (k : Kernel) (handles : BootstrapHandles) (role : AttachRole)
    (out : StatusCode × World)
    → out.0 ≡ ok
    → after_map abi k handles role out
      ≡ after_remap k handles role (remap_with_actual_layout abi k out.1)
unfolding after_map
after_map-ok abi k handles role (status, w) good = ground arith

map-Outcome :
    (abi : Abi) (k : Kernel) (adopted : BootstrapHandles) (role : AttachRole) (w : World)
    → 0 < abi.header_bytes
    → w.session ≡ empty_session
    → Outcome abi k adopted role w (after_map abi k adopted role (map_and_validate_header abi k w))
map-Outcome abi k adopted role w pos e =
    let out = map_and_validate_header abi k w in
    elim (StatusCode-discrete out.0 ok) [
      | yes done ↦
          subst (Outcome abi k adopted role w)
            (sym (
              after_map-ok abi k adopted role out done
              ∙ ap
                  (λ (o : StatusCode × World).
                    after_remap k adopted role (remap_with_actual_layout abi k o.1))
                  (map_ok abi k w done)))
            (remap-Outcome abi k adopted role w pos e)
      | no bad ↦
          subst (Outcome abi k adopted role w) (sym (after_map-fail abi k adopted role out bad)) (
            refuse abi k adopted role w out.0 (close_handles adopted out.1) bad
              (map-Refused abi k adopted w pos e bad))
    ]

fd-Outcome :
    (abi : Abi) (k : Kernel) (adopted : BootstrapHandles) (role : AttachRole) (fd : Option ℕ)
    (w : World)
    → 0 < abi.header_bytes
    → w.session ≡ empty_session
    → Outcome abi k adopted role w (attach_fd abi k adopted role fd w)
unfolding attach_fd
fd-Outcome abi k adopted role none w pos e =
    refuse abi k adopted role w invalid_argument (close_handles adopted w) (λ good. cc)
      (unfold close_handles in
        record {
          invalid = ap (λ (s : Session). s.has_header) e;
          unmapped = ap (λ (s : Session). s.mapped) e;
          no_handles = ap (λ (s : Session). s.handles) e;
          mappings_kept = refl;
          handles_closed = refl;
          memory_kept = refl;
        })
fd-Outcome abi k adopted role (some fd) w pos e = map-Outcome abi k adopted role w pos e

-- `Attach` that returns `Ok` leaves the session attached: one mapping, of the layout that the checked
-- header states, the handles taken over and open, and for a client the attachment claimed. `Attach`
-- that returns anything else leaves the session invalid, with no mapping and no handles, every
-- descriptor handed over closed once, and the memory object unchanged. The header has some size.
pub attach-Outcome :
    (abi : Abi) (k : Kernel) (handles : Option BootstrapHandles) (role : AttachRole)
    (memory : SharedMemory) (w : World)
    → 0 < abi.header_bytes
    → Outcome abi k
        (take_bootstrap_handles handles)
        role
        (fresh_world k memory w)
        (attach abi k handles role memory w)
unfolding attach reset
attach-Outcome abi k handles role memory w pos =
    fd-Outcome abi k (take_bootstrap_handles handles) role (take_bootstrap_handles handles).shm_fd
      (fresh_world k memory w) pos refl
