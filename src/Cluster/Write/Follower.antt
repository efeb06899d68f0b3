-- ===== src/Cluster/Write/Follower.antt =====
-- What a follower's log holds after a batch of the leader's entries.
use rhosus.Base.{
  ℕ, suc, ◌+◌, ◌≤◌, ◌<◌, ◌≡◌, refl, ◌↔◌, Option-cases, Option, none, some, List, [], ◌∷◌, All,
  arith, ◌⊎◌, inl, inr, get_last?, ap, ◌∙◌, sym, subst, length,
}
use rhosus.Cluster.Types.{Entry, Err, corrupt, Env, IsReliable}
use rhosus.Cluster.Node.{Cluster}
use rhosus.Cluster.Write.{
  validate_after, validate_entries_sequence, store_entries, call_handler, write_entries_from_leader,
}

abbrev pub Increasing : Entry → List Entry → Type 0
Increasing last [] = Unit
Increasing last (e ∷ es) = (last.index < e.index) × Increasing e es

abbrev pub IsIncreasing : List Entry → Type 0
IsIncreasing [] = Unit
IsIncreasing (e ∷ es) = Increasing e es

Increasing-tail : (last : Entry) (es : List Entry) → Increasing last es → IsIncreasing es
Increasing-tail last [] h = tt
Increasing-tail last (e ∷ es) h = h.1

validate_after_iff :
    (last : Entry) (es : List Entry) → (validate_after last es ≡ none) ↔ Increasing last es
unfolding validate_after
validate_after_iff last [] = ground arith
validate_after_iff last (e ∷ es) = ground (arith, validate_after_iff e es)

-- The check accepts exactly the batches whose indices strictly grow.
pub validate_entries_sequence_iff :
    (es : List Entry) → (validate_entries_sequence es ≡ none) ↔ IsIncreasing es
unfolding validate_entries_sequence
validate_entries_sequence_iff [] = ground arith
validate_entries_sequence_iff (e ∷ es) = validate_after_iff e es

validate_after-cases :
    (last : Entry) (es : List Entry)
    → (validate_after last es ≡ none) ⊎ (validate_after last es ≡ some corrupt)
unfolding validate_after
validate_after-cases last [] = inl refl
validate_after-cases last (e ∷ es) = ground (arith, validate_after-cases e es)

validate-cases :
    (es : List Entry)
    → (validate_entries_sequence es ≡ none) ⊎ (validate_entries_sequence es ≡ some corrupt)
unfolding validate_entries_sequence
validate-cases [] = inl refl
validate-cases (e ∷ es) = validate_after-cases e es

-- The indices of `es` go on from `n` one by one.
abbrev pub Consecutive : ℕ → List Entry → Type 0
Consecutive n [] = Unit
Consecutive n (e ∷ es) = (e.index ≡ suc n) × Consecutive (suc n) es

Consecutive-Increasing :
    (last : Entry) (es : List Entry) → Consecutive last.index es → Increasing last es
Consecutive-Increasing last [] h = tt
Consecutive-Increasing last (e ∷ es) h =
    (omega (arith, h.0), Consecutive-Increasing e es (subst (λ m. Consecutive m es) (sym h.0) h.1))

Consecutive-IsIncreasing : (n : ℕ) (es : List Entry) → Consecutive n es → IsIncreasing es
Consecutive-IsIncreasing n [] h = tt
Consecutive-IsIncreasing n (e ∷ es) h =
    Consecutive-Increasing e es (subst (λ m. Consecutive m es) (sym h.0) h.1)

-- `c` with the entry `e` in its log.
abbrev pub stored : {env : Env} → Entry → Cluster env → Cluster env
stored {env} e c = record c {
  last_log_index = e.index;
  last_log_term = e.term;
  wal = (env.write e.index (env.marshal e) c.wal).1;
}

-- The log returns the encoding of `e` at its index.
abbrev pub Holds : {env : Env} → Cluster env → Entry → Type 0
Holds {env} c e = env.read e.index c.wal ≡ (none, env.marshal e)

module _ {env : Env} (sound : IsReliable env) where
  open sound use {EndsAt, write_ok, write-EndsAt, read-write_self, read-write_below}

  pub stored-EndsAt :
      (n : ℕ) (e : Entry) (c : Cluster env)
      → EndsAt n c.wal
      → e.index ≡ suc n
      → EndsAt (suc n) (stored e c).wal
  stored-EndsAt n e c ends next =
      subst (λ i. EndsAt (suc n) (env.write i (env.marshal e) c.wal).1) (sym next)
        (write-EndsAt n (env.marshal e) c.wal ends)

  pub read_stored :
      (n : ℕ) (e : Entry) (c : Cluster env)
      → EndsAt n c.wal
      → e.index ≡ suc n
      → Holds (stored e c) e
  read_stored n e c ends next =
      subst (λ i. env.read i (env.write i (env.marshal e) c.wal).1 ≡ (none, env.marshal e))
        (sym next) (read-write_self n (env.marshal e) c.wal ends)

  read_below :
      (n j : ℕ) (e : Entry) (c : Cluster env)
      → EndsAt n c.wal
      → e.index ≡ suc n
      → j ≤ n
      → env.read j (stored e c).wal ≡ env.read j c.wal
  read_below n j e c ends next le =
      subst (λ i. env.read j (env.write i (env.marshal e) c.wal).1 ≡ env.read j c.wal) (sym next)
        (read-write_below n j (env.marshal e) c.wal ends le)

  store_entries-step :
      (n : ℕ) (e : Entry) (es : List Entry) (c : Cluster env)
      → EndsAt n c.wal
      → e.index ≡ suc n
      → store_entries (e ∷ es) c ≡ store_entries es (stored e c)
  unfolding store_entries
  store_entries-step n e es c ends next =
      let taken : (env.write e.index (env.marshal e) c.wal).0 ≡ none =
        subst (λ i. (env.write i (env.marshal e) c.wal).0 ≡ none) (sym next)
          (write_ok n (env.marshal e) c.wal ends) in
      rw (taken, store_entries) refl

  -- What a batch leaves behind: nothing fails, the log ends with the batch, has its entries, and
  -- reads as before up to where it ended.
  record IsStored (n : ℕ) (es : List Entry) (c : Cluster env) (r : Option Err × Cluster env)
      : Type 0 where
    ok : r.0 ≡ none
    ends : EndsAt (n + length es) r.1.wal
    held : All (Holds r.1) es
    kept : (i : ℕ) → i ≤ n → env.read i r.1.wal ≡ env.read i c.wal

  store_entries-IsStored :
      (n : ℕ) (es : List Entry) (c : Cluster env)
      → EndsAt n c.wal
      → Consecutive n es
      → IsStored n es c (store_entries es c)
  unfolding store_entries
  store_entries-IsStored n [] c ends h = record {
    ok = refl;
    ends = subst (λ m. EndsAt m c.wal) (omega arith) ends;
    held = tt;
    kept = λ i le. refl;
  }
  store_entries-IsStored n (e ∷ es) c ends h =
      let rest =
        store_entries-IsStored (suc n) es (stored e c) (stored-EndsAt n e c ends h.0) h.1 in
      rw (store_entries-step n e es c ends h.0) (record {
        ok = rest.ok;
        ends = subst (λ m. EndsAt m (store_entries es (stored e c)).1.wal) (omega arith) rest.ends;
        held = (rest.kept e.index (omega (arith, h.0)) ∙ read_stored n e c ends h.0, rest.held);
        kept = λ i le. rest.kept i (omega arith) ∙ read_below n i e c ends h.0 le;
      })

  -- The index that the follower reports after a batch.
  last_log_index-store_entries :
      (n : ℕ) (e : Entry) (es : List Entry) (c : Cluster env) (l : Entry)
      → EndsAt n c.wal
      → Consecutive n (e ∷ es)
      → get_last? (e ∷ es) ≡ some l
      → (store_entries (e ∷ es) c).1.last_log_index ≡ l.index
  last_log_index-store_entries n e [] c l ends h p =
      rw (store_entries-step n e [] c ends h.0) (unfold store_entries in ground arith)
  last_log_index-store_entries n e (x ∷ es) c l ends h p =
      rw (store_entries-step n e (x ∷ es) c ends h.0) (
        last_log_index-store_entries (suc n) x es (stored e c) l (stored-EndsAt n e c ends h.0) h.1
          p)

  accepted :
      (n : ℕ) (es : List Entry) (c : Cluster env)
      → Consecutive n es
      → write_entries_from_leader es c ≡ store_entries es (call_handler es c)
  unfolding write_entries_from_leader
  accepted n es c h =
      rw
        (
          (validate_entries_sequence_iff es).1 (Consecutive-IsIncreasing n es h),
          write_entries_from_leader,
        )
        refl

  call_handler_wal : (es : List Entry) (c : Cluster env) → (call_handler es c).wal ≡ c.wal
  unfolding call_handler
  call_handler_wal es c = ground arith

  -- Let the log be open and end at n, on a disk that does not fail, and let the indices of a batch of
  -- the leader, which is not empty, go on from n one by one. Then the batch is stored whole: each entry
  -- is read at its index, what the log had stays, the log ends where the batch does, and the follower's
  -- last index is that of the batch's last entry.
  pub write_entries_from_leader-Holds :
      (n : ℕ) (es : List Entry) (c : Cluster env) (l : Entry)
      → EndsAt n c.wal
      → Consecutive n es
      → get_last? es ≡ some l
      → let r = write_entries_from_leader es c in
        (r.0 ≡ none)
        × All (Holds r.1) es
        × (r.1.last_log_index ≡ l.index)
        × EndsAt (n + length es) r.1.wal
        × ((i : ℕ) → i ≤ n → env.read i r.1.wal ≡ env.read i c.wal)
  write_entries_from_leader-Holds n [] c l ends h p = absurd (ground arith)
  write_entries_from_leader-Holds n (e ∷ es) c l ends h p =
      let d = call_handler (e ∷ es) c in
      let at_end = subst (EndsAt n) (sym (call_handler_wal (e ∷ es) c)) ends in
      let all = store_entries-IsStored n (e ∷ es) d at_end h in
      subst
        (λ (r : Option Err × Cluster env).
          (r.0 ≡ none)
          × All (Holds r.1) (e ∷ es)
          × (r.1.last_log_index ≡ l.index)
          × EndsAt (n + length (e ∷ es)) r.1.wal
          × ((i : ℕ) → i ≤ n → env.read i r.1.wal ≡ env.read i c.wal))
        (sym (accepted n (e ∷ es) c h))
        (
          all.ok,
          all.held,
          last_log_index-store_entries n e es d l at_end h p,
          all.ends,
          λ i le. all.kept i le ∙ ap (env.read i) (call_handler_wal (e ∷ es) c),
        )

-- A batch that is out of order is refused as corrupt, before the registry or the log sees any of it.
pub write_entries_from_leader-corrupt :
    {env : Env} (es : List Entry) (c : Cluster env)
    → ¬ IsIncreasing es
    → write_entries_from_leader es c ≡ (some corrupt, c)
unfolding write_entries_from_leader
write_entries_from_leader-corrupt es c h = elim (validate-cases es) [
  | inl e ↦ absurd (h ((validate_entries_sequence_iff es).0 e))
  | inr e ↦ rw (e, write_entries_from_leader)
]

-- Storing entries changes neither the term nor the role of the registry.
current_term-store_entries :
    {env : Env} (es : List Entry) (c : Cluster env)
    → ((store_entries es c).1.current_term ≡ c.current_term)
      × ((store_entries es c).1.state ≡ c.state)
unfolding store_entries
current_term-store_entries [] c = (refl, refl)
current_term-store_entries {env} (e ∷ es) c =
    elim (Option-cases (env.write e.index (env.marshal e) c.wal).0) [
      | inl p ↦ rw (p, store_entries) (current_term-store_entries es (stored e c))
      | inr (x, p) ↦ rw (p, store_entries) (refl, refl)
    ]

pub current_term-write_entries_from_leader :
    {env : Env} (es : List Entry) (c : Cluster env)
    → ((write_entries_from_leader es c).1.current_term ≡ c.current_term)
      × ((write_entries_from_leader es c).1.state ≡ c.state)
unfolding write_entries_from_leader
current_term-write_entries_from_leader es c =
    ground (arith, current_term-store_entries es (call_handler es c))

pub write_entries_from_leader-nil :
    {env : Env} (c : Cluster env) → (write_entries_from_leader [] c).0 ≡ none
unfolding write_entries_from_leader validate_entries_sequence store_entries
write_entries_from_leader-nil c = refl
