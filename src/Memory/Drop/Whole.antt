-- ===== src/Memory/Drop/Whole.antt =====
-- Any calls on a new `MemoryFS` of src/impls/memory.rs and on its handles: which files are open then.
use sandbox_vfs.Base.{
  ℕ, ℤ, ◌+◌, ◌^◌, ◌<◌, ◌≤◌, ◌≡◌, refl, sym, subst, ap, ◌∙◌, true, false, ◌||◌, List, [], ◌∷◌,
  length, Bytes, arith, ◌==◌, is_negative, ◌++◌, codes,
}
use sandbox_vfs.Memory.{Kernel, Heap, MemoryFs, backing_fd}
use sandbox_vfs.Memory.Create.{new}
use sandbox_vfs.Memory.Create.New.{new-IsValid, next-new}
use sandbox_vfs.Memory.Drop.{Session, Call, is_held, is_owned, run, run_all}
use sandbox_vfs.Memory.Drop.Backed.{HasDescriptors, IsBacked, IsBacked-make}
use sandbox_vfs.Memory.Drop.Run.{run-Runs}
use sandbox_vfs.Memory.Drop.Steps.{fds, Backed, Closes}
use sandbox_vfs.Memory.Tree.{IsValid}

module _ {K : Type 0} {os : Kernel K} {IsOpen : K → ℤ → Type 0} (table : HasDescriptors os IsOpen)
    (fs : MemoryFs) where
  -- A session that runs on as it should.
  abbrev Holds : Session K → Type 0
  Holds (handles, h) = IsValid fs h × Backed table fs (handles, h)

  run_all-Holds :
      (cs : List Call) (s : Session K)
      → Holds s
      → s.1.next_node_id + length cs < 2 ^ 64
      → Holds (run_all os fs cs s)
        × ((run_all os fs cs s).1.next_node_id ≤ s.1.next_node_id + length cs)
  unfolding run_all
  run_all-Holds [] s holds room = (holds, omega arith)
  run_all-Holds (c ∷ cs) (handles, h) (valid, b) room =
      let ((b', _), (valid', next)) = run-Runs table fs handles h valid b (omega arith) c in
      let (holds, more) =
        run_all-Holds cs (run os fs c (handles, h)) (valid', b') (omega (arith, next)) in
      (holds, omega (arith, more, next))

module _ {K : Type 0} {os : Kernel K} {IsOpen : K → ℤ → Type 0} (table : HasDescriptors os IsOpen)
    (id : Bytes) (h : Heap K) (room : h.next_node_id + 1 < 2 ^ 64) where
  abbrev fresh : Heap K
  fresh = (new os id h).1

  abbrev fs : MemoryFs
  fs = (new os id h).0

  abbrev name : Bytes
  name = codes "sandbox-vfs-dir" ++ 0 ∷ []

  root_fd : fds fresh h.next_node_id ≡ (os.memfd_create name h.kernel).0
  unfolding new backing_fd
  root_fd = ground arith

  same_root : fs.root ≡ h.next_node_id
  unfolding new
  same_root = refl

  kernel-new : fresh.kernel ≡ (os.memfd_create name h.kernel).1
  unfolding new
  kernel-new = refl

  only_root : (i : ℕ) → is_owned os fs [] fresh i ≡ true → (h.next_node_id == i) || false ≡ true
  unfolding new is_owned is_held
  only_root i o = ground arith

  pub new-Backed :
      is_negative (backing_fd (fresh.objects fs.root).kind) ≡ false → Backed table fs ([], fresh)
  new-Backed good =
      subst (IsBacked IsOpen (is_owned os fs [] fresh) (fds fresh) fresh.next_node_id)
        (sym kernel-new)
        (IsBacked-make table nobody name (is_owned os fs [] fresh) (fds fresh) fresh.next_node_id
          (ap is_negative (sym root_fd)
            ∙ ap (λ i. is_negative (fds fresh i)) (sym same_root)
            ∙ good)
          only_root root_fd (λ i ne. refl) (omega (arith, next-new os id h room)))
    where
      nobody : IsBacked IsOpen (λ i. false) (fds fresh) h.next_node_id h.kernel
      nobody = record {
        numbered = λ i o. absurd (cc);
        is_open = λ i o. absurd (cc);
        apart = λ i j o p e. absurd (cc);
      }

-- After any calls on a new file system (create, unlink or rmdir, rename, chmod, open) and on the handles
-- that it gave (open, mkdir, the drop of the handle), with node numbers to spare and a descriptor for
-- the root, on a kernel whose new descriptors are none of the open ones and which closes one on close
-- only: the file behind each node that the map of the file system or a handle has is open, two such
-- nodes have two files, and if a further call takes the last of these pointers to a node, the file
-- behind the node is closed after it.
pub run_all-Backed :
    {K : Type 0} {os : Kernel K} {IsOpen : K → ℤ → Type 0} (table : HasDescriptors os IsOpen)
    (id : Bytes) (h : Heap K) (cs : List Call) (c : Call)
    → h.next_node_id + 2 + length cs < 2 ^ 64
    → let (fs, h') = new os id h in
      is_negative (backing_fd (h'.objects fs.root).kind) ≡ false
      → let (fs, h') = new os id h in
        let s = run_all os fs cs ([], h') in Backed table fs s × Closes table fs s (run os fs c s)
run_all-Backed {os = os} table id h cs c spare good =
    let (fs, h') = new os id h in
    let room : h.next_node_id + 1 < 2 ^ 64 = omega arith in
    let ((valid, b), more) =
      run_all-Holds table fs cs ([], h') (new-IsValid os id h room, new-Backed table id h room good)
        (omega (arith, next-new os id h room)) in
    let (handles, g) = run_all os fs cs ([], h') in
    (b, (run-Runs table fs handles g valid b (omega (arith, more, next-new os id h room)) c).0.1)
