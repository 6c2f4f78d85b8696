-- ===== src/OsModule/Environment.antt =====
-- `os.environ` of os_uc386dos.c, on an environment block with a given list of entries.
use freedos_micro_python.Prelude.{
  ℕ, zero, suc, ◌+◌, ◌≤◌, ◌≡◌, refl, none, some, List, [], ◌∷◌, ◌++◌, arith, Bytes, length, ◌==◌,
  Lacks,
}
use freedos_micro_python.Scan.{span}
use freedos_micro_python.OsModule.{Libc, split_entry, env_entry, environ_loop, environ}

-- The pairs of the entries: an entry without an equals sign has none, and the key ends at the first.
pub data Stored : List Bytes → List (Bytes × Bytes) → Type 0 where
  nothing : Stored [] []
  malformed :
      (entry : Bytes) (es : List Bytes) (ps : List (Bytes × Bytes))
      → Lacks 61 entry
      → Stored es ps
      → Stored (entry ∷ es) ps
  pair :
      (key val : Bytes) (es : List Bytes) (ps : List (Bytes × Bytes))
      → Lacks 61 key
      → Stored es ps
      → Stored ((key ++ 61 ∷ val) ∷ es) ((key, val) ∷ ps)

-- `dos_env_iter` from an index on.
pub data Block {W : Type 0} (libc : Libc W) : ℕ → List Bytes → Type 0 where
  end_of_block : (i : ℕ) → libc.dos_env_iter i ≡ none → Block libc i []
  next_entry :
      (i : ℕ) (entry : Bytes) (es : List Bytes)
      → libc.dos_env_iter i ≡ some entry
      → Block libc (i + 1) es
      → Block libc i (entry ∷ es)

span_none : (s : Bytes) → Lacks 61 s → span (λ c. c == 61) s ≡ (s, [])
unfolding span
span_none [] l = refl
span_none (c ∷ s) (not_eq, l) = ground (arith, span_none s l)

span_at : (key val : Bytes) → Lacks 61 key → span (λ c. c == 61) (key ++ 61 ∷ val) ≡ (key, 61 ∷ val)
unfolding span
span_at [] val l = refl
span_at (c ∷ key) val (not_eq, l) = ground (arith, span_at key val l)

env_entry_none :
    (entry : Bytes) (ps : List (Bytes × Bytes)) → Lacks 61 entry → env_entry entry ps ≡ ps
unfolding env_entry split_entry
env_entry_none entry ps l = rw (span_none entry l) refl

env_entry_pair :
    (key val : Bytes) (ps : List (Bytes × Bytes))
    → Lacks 61 key
    → env_entry (key ++ 61 ∷ val) ps ≡ (key, val) ∷ ps
unfolding env_entry split_entry
env_entry_pair key val ps l = rw (span_at key val l) refl

module _ {W : Type 0} (libc : Libc W) where
  environ_loop-Stored :
      (fuel i : ℕ) (es : List Bytes) (ps : List (Bytes × Bytes))
      → Block libc i es
      → Stored es ps
      → length es ≤ fuel
      → environ_loop libc fuel i ≡ some ps
  unfolding environ_loop
  environ_loop-Stored zero _ _ _ (end_of_block i e) nothing enough = rw (environ_loop, e) refl
  environ_loop-Stored (suc fuel) _ _ _ (end_of_block i e) nothing enough = rw (environ_loop, e) refl
  environ_loop-Stored zero _ _ _ (next_entry i entry es e b) s enough = absurd (omega arith)
  environ_loop-Stored (suc fuel) _ _ _ (next_entry i entry es e b) (malformed _ _ ps l s) enough =
      rw
        (
          environ_loop,
          e,
          environ_loop-Stored fuel (i + 1) es ps b s (omega arith),
          env_entry_none entry ps l,
        )
        refl
  environ_loop-Stored (suc fuel) _ _ _ (next_entry i _ es e b) (pair key val _ ps l s) enough =
      rw
        (
          environ_loop,
          e,
          environ_loop-Stored fuel (i + 1) es ps b s (omega arith),
          env_entry_pair key val ps l,
        )
        refl

  -- `environ` on a block of entries that ends with them needs a round for each: it stores the key and the value of each
  -- entry that has an equals sign, in the block's order, the key being what stands before the first of
  -- them and the value all that follows it, and passes over the entries that have none.
  pub environ-Stored :
      (fuel : ℕ) (es : List Bytes) (ps : List (Bytes × Bytes))
      → Block libc 0 es
      → Stored es ps
      → length es ≤ fuel
      → environ libc fuel ≡ some ps
  unfolding environ
  environ-Stored fuel es ps b s enough = environ_loop-Stored fuel 0 es ps b s enough
