-- ===== src/Plaintext/Pruning.antt =====
-- Which files `prune_plaintext_cache` of src/remote.rs removes.
use agent_transcript.Prelude.{
  ℕ, ◌-◌, ◌≡◌, refl, sym, ap, ◌∙◌, true, Option, none, some, List, [], ◌∷◌, ◌++◌, Memᴰ, All,
  All-append, All-sort_by, All-Memᴰ, sort_by, leb, Bool-cases, inl, inr, Option-cases,
}
use agent_transcript.Errors.{Result-cases}
use agent_transcript.Plaintext.{
  Entry, Files, is_cached, is_expired, older_first, total_size, collect, evict, max_bytes,
  prune_plaintext_cache,
}

module _ {S : Type 0} (files : Files S) where
  -- Remove these files, one after the other, whatever comes of each.
  pub remove_each : List Entry → S → S
  remove_each [] s = s
  remove_each (e ∷ entries) s = remove_each entries (files.remove e.path s).1

  remove_each-append :
      (a b : List Entry) (s : S) → remove_each (a ++ b) s ≡ remove_each b (remove_each a s)
  unfolding remove_each
  remove_each-append [] b s = refl
  remove_each-append (e ∷ a) b s = remove_each-append a b (files.remove e.path s).1

module _ {S : Type 0} (files : Files S) (listing : List Entry) where
  -- A file of the cache that the directory listed.
  abbrev pub IsListedCached : Entry → Type 0
  IsListedCached e = (is_cached e ≡ true) × Memᴰ e listing

  -- A change of the filesystem that only removes files of the cache which were listed.
  pub record RemovesCached (before after : S) : Type 0 where
    pub removed : List Entry
    pub effect : after ≡ remove_each files removed before
    pub only_cached : All IsListedCached removed

  nothing : (s : S) → RemovesCached s s
  unfolding remove_each
  nothing s = record { removed = []; effect = refl; only_cached = tt }

  remove_first :
      (e : Entry) (s after : S)
      → IsListedCached e
      → RemovesCached (files.remove e.path s).1 after
      → RemovesCached s after
  unfolding remove_each
  remove_first e s after mine k = record {
    removed = e ∷ k.removed;
    effect = k.effect;
    only_cached = (mine, k.only_cached);
  }

  both : (s t u : S) → RemovesCached s t → RemovesCached t u → RemovesCached s u
  both s t u a b = record {
    removed = a.removed ++ b.removed;
    effect =
        b.effect
        ∙ ap (remove_each files b.removed) a.effect
        ∙ sym (remove_each-append files a.removed b.removed s);
    only_cached = All-append IsListedCached a.removed b.removed a.only_cached b.only_cached;
  }

  evict-RemovesCached :
      (total : ℕ) (entries : List Entry) (s : S)
      → All IsListedCached entries
      → RemovesCached s (evict files total entries s)
  unfolding evict
  evict-RemovesCached total [] s mine = nothing s
  evict-RemovesCached total (e ∷ entries) s (first, mine) =
      elim (Bool-cases (leb total max_bytes)) [
        | inl enough ↦ rw enough (nothing s)
        | inr more ↦ elim (Result-cases (files.remove e.path s).0) [
          | inl (done, gone) ↦
              rw (more, gone)
                (remove_first e s _ first
                  (evict-RemovesCached (total - e.size) entries (files.remove e.path s).1 mine))
          | inr (f, stuck) ↦
              rw (more, stuck)
                (remove_first e s _ first
                  (evict-RemovesCached total entries (files.remove e.path s).1 mine))
        ]
      ]

  collect-RemovesCached :
      (now : ℕ) (found : List Entry) (s : S)
      → All (λ e. Memᴰ e listing) found
      → RemovesCached s (collect files now found s).1
        × All IsListedCached (collect files now found s).0
  unfolding collect
  collect-RemovesCached now [] s there = (nothing s, tt)
  collect-RemovesCached now (e ∷ found) s (here, there) = elim (Bool-cases (is_cached e)) [
    | inr foreign ↦ rw foreign (collect-RemovesCached now found s there)
    | inl mine ↦ elim (Bool-cases (is_expired now e)) [
      | inl late ↦
          let k = collect-RemovesCached now found (files.remove e.path s).1 there in
          rw (mine, late) (remove_first e s _ (mine, here) k.0, k.1)
      | inr fresh ↦
          let k = collect-RemovesCached now found s there in
          rw (mine, fresh) (k.0, ((mine, here), k.1))
    ]
  ]

abbrev pub listed_or_none : Option (List Entry) → List Entry
listed_or_none none = []
listed_or_none (some listing) = listing

module _ {S : Type 0} (files : Files S) where
  -- The pruning of the cache removes nothing but files that the directory listed and that the cache
  -- has written, which are the `.json` files named by 64 hexadecimal digits; this holds whether or
  -- not the removals succeed. It removes nothing if the directory cannot be listed.
  pub prune_plaintext_cache-RemovesCached :
      (now : ℕ) (s : S)
      → RemovesCached files
          (listed_or_none (files.read_dir s).0)
          (files.read_dir s).1
          (prune_plaintext_cache files now s)
  unfolding prune_plaintext_cache
  prune_plaintext_cache-RemovesCached now s = elim (Option-cases (files.read_dir s).0) [
    | inl missing ↦
        rw (prune_plaintext_cache, missing)
          (nothing files (listed_or_none none) (files.read_dir s).1)
    | inr (found, there) ↦
        let (entries, s') = collect files now found (files.read_dir s).1 in
        let k = collect-RemovesCached files found now found (files.read_dir s).1 (All-Memᴰ found) in
        rw (prune_plaintext_cache, there)
          (both files found _ s' _ k.0 (
            evict-RemovesCached files found (total_size entries) (sort_by older_first entries) s'
              (All-sort_by older_first (IsListedCached files found) entries k.1)))
  ]
