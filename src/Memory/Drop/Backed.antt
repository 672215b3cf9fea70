-- ===== src/Memory/Drop/Backed.antt =====
-- Which files are open behind the nodes that something points to, in terms of the kernel's table of
-- descriptors.
use sandbox_vfs.Base.{
  ℕ, ◌+◌, ◌<◌, ◌≤◌, ◌≡◌, ◌≢◌, sym, subst, ap, ◌∙◌, Bool, true, false, ◌||◌, arith, Bytes, ℤ,
  is_negative, ◌==◌, Bool-cases, inl, inr,
}
use sandbox_vfs.Memory.{Kernel}

-- What the program relies on in the kernel: a new descriptor is none of the open ones, and only
-- `close` closes one.
pub record HasDescriptors {K : Type 0} (os : Kernel K) (IsOpen : K → ℤ → Type 0) : Type 0 where
  pub memfd_fresh :
      (name : Bytes) (k : K)
      → is_negative (os.memfd_create name k).0 ≡ false
      → ¬ IsOpen k (os.memfd_create name k).0
  pub memfd_open :
      (name : Bytes) (k : K)
      → is_negative (os.memfd_create name k).0 ≡ false
      → IsOpen (os.memfd_create name k).1 (os.memfd_create name k).0
  pub memfd_keeps :
      (name : Bytes) (k : K) (fd : ℤ) → IsOpen k fd → IsOpen (os.memfd_create name k).1 fd
  pub open_keeps :
      (backing : ℤ) (flags : ℕ) (k : K) (fd : ℤ)
      → IsOpen k fd
      → IsOpen (os.open_proc_fd backing flags k).1 fd
  pub fchmod_keeps :
      (backing : ℤ) (mode : ℕ) (k : K) (fd : ℤ) → IsOpen k fd → IsOpen (os.fchmod backing mode k) fd
  pub close_closes : (fd : ℤ) (k : K) → ¬ IsOpen (os.close fd k) fd
  pub close_keeps :
      (closed : ℤ) (k : K) (fd : ℤ) → closed ≢ fd → IsOpen k fd → IsOpen (os.close closed k) fd

-- Every node that something points to stands on an open file of its own.
pub record IsBacked {K : Type 0} (IsOpen : K → ℤ → Type 0) (owned : ℕ → Bool) (fds : ℕ → ℤ)
    (next : ℕ) (k : K) : Type 0 where
  pub numbered : (i : ℕ) → owned i ≡ true → i < next
  pub is_open : (i : ℕ) → owned i ≡ true → IsOpen k (fds i)
  pub apart : (i j : ℕ) → owned i ≡ true → owned j ≡ true → fds i ≡ fds j → i ≡ j

module _ {K : Type 0} {os : Kernel K} {IsOpen : K → ℤ → Type 0} (table : HasDescriptors os IsOpen)
    {owned : ℕ → Bool} {fds : ℕ → ℤ} {next : ℕ} {k : K} (b : IsBacked IsOpen owned fds next k) where
  -- Fewer nodes, on the same files, with a higher next number and no file closed.
  pub IsBacked-fewer :
      (owned' : ℕ → Bool) (fds' : ℕ → ℤ) (next' : ℕ) (k' : K)
      → ((i : ℕ) → owned' i ≡ true → owned i ≡ true)
      → ((i : ℕ) → fds' i ≡ fds i)
      → next ≤ next'
      → ((fd : ℤ) → IsOpen k fd → IsOpen k' fd)
      → IsBacked IsOpen owned' fds' next' k'
  IsBacked-fewer owned' fds' next' k' fewer same more keeps = record {
    numbered = λ i o. omega (arith, b.numbered i (fewer i o));
    is_open = λ i o. subst (IsOpen k') (sym (same i)) (keeps (fds i) (b.is_open i (fewer i o)));
    apart = λ i j o p e. b.apart i j (fewer i o) (fewer j p) (sym (same i) ∙ e ∙ same j);
  }

  -- The file of a node is closed when nothing points to the node.
  pub IsBacked-close :
      (c : ℕ) (owned' : ℕ → Bool)
      → owned c ≡ true
      → owned' c ≡ false
      → ((i : ℕ) → owned' i ≡ true → owned i ≡ true)
      → IsBacked IsOpen owned' fds next (os.close (fds c) k)
  IsBacked-close c owned' was gone fewer = record {
    numbered = λ i o. b.numbered i (fewer i o);
    is_open = λ i o.
        table.close_keeps (fds c) k (fds i)
          (λ e. let same = b.apart c i was (fewer i o) e in cc (gone, o, same))
          (b.is_open i (fewer i o));
    apart = λ i j o p e. b.apart i j (fewer i o) (fewer j p) e;
  }

  -- A new node on a new file.
  pub IsBacked-make :
      (name : Bytes) (owned' : ℕ → Bool) (fds' : ℕ → ℤ) (next' : ℕ)
      → is_negative (os.memfd_create name k).0 ≡ false
      → ((i : ℕ) → owned' i ≡ true → (next == i) || owned i ≡ true)
      → fds' next ≡ (os.memfd_create name k).0
      → ((i : ℕ) → next ≢ i → fds' i ≡ fds i)
      → next + 1 ≤ next'
      → IsBacked IsOpen owned' fds' next' (os.memfd_create name k).1
  IsBacked-make name owned' fds' next' good more new old room = record {
    numbered = λ i o. ground (arith, more i o, b.numbered i);
    is_open = λ i o. elim (Bool-cases (next == i)) [
      | inl e ↦
          let here : next ≡ i = ground arith in
          subst (IsOpen made) (sym new ∙ ap fds' here) (table.memfd_open name k good)
      | inr e ↦
          subst (IsOpen made) (sym (old i (ground arith)))
            (table.memfd_keeps name k (fds i) (b.is_open i (ground (arith, more i o))))
    ];
    apart = λ i j o p e. elim (Bool-cases (next == i)) [
      | inl f ↦ elim (Bool-cases (next == j)) [
        | inl g ↦ ground arith
        | inr g ↦
            absurd (clash j i (ground arith) (ground (arith, more j p)) (ground arith) (sym e))
      ]
      | inr f ↦ elim (Bool-cases (next == j)) [
        | inl g ↦ absurd (clash i j (ground arith) (ground (arith, more i o)) (ground arith) e)
        | inr g ↦
            b.apart i j (ground (arith, more i o)) (ground (arith, more j p))
              (sym (old i (ground arith)) ∙ e ∙ old j (ground arith))
      ]
    ];
  }
    where
      made : K
      made = (os.memfd_create name k).1

      -- An old node does not stand on the new file.
      clash : (i j : ℕ) → next ≡ j → owned i ≡ true → next ≢ i → fds' i ≢ fds' j
      clash i j here o ne e =
          table.memfd_fresh name k good
            (subst (IsOpen k) (sym (old i ne) ∙ e ∙ ap fds' (sym here) ∙ new) (b.is_open i o))
