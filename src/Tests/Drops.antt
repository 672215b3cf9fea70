-- ===== src/Tests/Drops.antt =====
-- A file that is unlinked while a handle on it is open, and the drop of the handle.
use sandbox_vfs.Base.{
  ℕ, ℤ, ◌+◌, ◌^◌, ◌<◌, ◌≡◌, ◌≢◌, refl, ap, Bool, true, false, List, [], ◌∷◌, ◌++◌, length, codes,
  arith, pos, negsuc, is_negative, ◌==◌, if◌then◌else◌,
}
use sandbox_vfs.Filesystem.{file, dir}
use sandbox_vfs.Memory.{Kernel, Heap, backing_fd}
use sandbox_vfs.Memory.Create.{new}
use sandbox_vfs.Memory.Drop.{drop_unowned, Call, make, remove, open_path, drop_handle, run, run_all}
use sandbox_vfs.Memory.Drop.Backed.{HasDescriptors}
use sandbox_vfs.Memory.Drop.Steps.{Backed, Closes}
use sandbox_vfs.Memory.Drop.Whole.{run_all-Backed}
use sandbox_vfs.Memory.Open.{open_node, open_resolved_node, open_found, open_backing}
use sandbox_vfs.Tests.Memory.{machine}
use sandbox_vfs.Tests.Names.{unused, path_a, path_af}

-- The next descriptor, and those that are open.
abbrev Table : Type 0
Table = ℕ × (ℕ → Bool)

abbrev opened : Table → ℤ × Table
opened (n, f) = (pos n, (n + 1, λ j. if n == j then true else f j))

unfoldable closed : ℤ → Table → Table
closed (pos m) (n, f) = (n, λ j. if m == j then false else f j)
closed (negsuc m) t = t

abbrev tracking : Kernel Table
tracking = record {
  memfd_create = λ name t. opened t;
  open_proc_fd = λ fd flags t. opened t;
  fstat = λ fd statbuf t. statbuf;
  fchmod = λ fd mode t. t;
  close = closed;
}

abbrev IsListed : Table → ℤ → Type 0
IsListed (n, f) (pos m) = (m < n) × (f m ≡ true)
IsListed (n, f) (negsuc m) = ⊥

opened_keeps : (t : Table) (fd : ℤ) → IsListed t fd → IsListed (opened t).1 fd
opened_keeps (n, f) (pos m) (less, o) = (omega arith, ground arith)
opened_keeps (n, f) (negsuc m) o = o

closed_closes : (fd : ℤ) (t : Table) → ¬ IsListed (closed fd t) fd
unfolding closed
closed_closes (pos m) (n, f) (less, o) = ground arith
closed_closes (negsuc m) (n, f) o = o

closed_keeps :
    (gone : ℤ) (t : Table) (fd : ℤ) → gone ≢ fd → IsListed t fd → IsListed (closed gone t) fd
unfolding closed
closed_keeps (pos k) (n, f) (pos m) ne (less, o) =
    let other : k ≢ m = λ e. ne (ap pos e) in (less, ground arith)
closed_keeps (pos k) (n, f) (negsuc m) ne o = o
closed_keeps (negsuc k) (n, f) fd ne o = o

tracking-HasDescriptors : HasDescriptors tracking IsListed
tracking-HasDescriptors = record {
  memfd_fresh = λ name t good (less, o). omega arith;
  memfd_open = λ name t good. (omega arith, ground arith);
  memfd_keeps = λ name t fd o. opened_keeps t fd o;
  open_keeps = λ backing flags t fd o. opened_keeps t fd o;
  fchmod_keeps = λ backing mode t fd o. o;
  close_closes = closed_closes;
  close_keeps = closed_keeps;
}

abbrev no_nodes : Heap Table
no_nodes = record {
  kernel = (3, λ j. false);
  next_node_id = 1;
  objects = λ i. unused;
  maps = λ m i. false;
}

abbrev calls : List Call
calls =
    make path_a dir 0o755
    ∷ make path_af file 0o644
    ∷ open_path path_af 0 0
    ∷ remove path_af file
    ∷ []

spare : no_nodes.next_node_id + 2 + length calls < 2 ^ 64
spare = omega arith

root_opened :
    let (fs, h') = new tracking (codes "memory") no_nodes in
    is_negative (backing_fd (h'.objects fs.root).kind) ≡ false
unfolding machine
root_opened = refl

run_all-Backed_example :
    let (fs, h') = new tracking (codes "memory") no_nodes in
    let s = run_all tracking fs calls ([], h') in
    Backed tracking-HasDescriptors fs s
    × Closes tracking-HasDescriptors fs s (run tracking fs (drop_handle 3) s)
run_all-Backed_example =
    run_all-Backed tracking-HasDescriptors (codes "memory") no_nodes calls (drop_handle 3) spare
      root_opened

-- The file of /a/f, descriptor 5, is open after the unlink and closed after the drop of the handle.
unfoldable files_at_end : List Call → ℕ → Bool
unfolding machine run_all open_node open_resolved_node open_found open_backing drop_unowned closed
files_at_end cs =
    let (fs, h') = new tracking (codes "memory") no_nodes in
    (run_all tracking fs cs ([], h')).1.kernel.1

test_held_open : files_at_end calls 5 ≡ true
unfolding files_at_end
test_held_open = refl

test_dropped : files_at_end (calls ++ drop_handle 3 ∷ []) 5 ≡ false
unfolding files_at_end
test_dropped = refl
