-- ===== src/Ingest/Scan/Loop.antt =====
-- src/ingest.rs: the loop of `scan`, branch by branch, against the plan of its uploads.
use agent_transcript.Prelude.{
  ℕ, Bytes, ◌≡◌, refl, sym, ap, ◌∙◌, subst, inl, inr, false, List, [], ◌∷◌, Bool-cases,
  Option-cases,
}
use agent_transcript.Harness.{Harness}
use agent_transcript.Errors.{Result, ok, err, ◌>>=◌, >>=-eq-ok, Result-cases, ok_injective}
use agent_transcript.Fragment.{is_empty}
use agent_transcript.Catalog.{Revision, Catalog, object_key, merge_catalogs, hash_of}
use agent_transcript.Document.{
  ArchiveDocument, new_document, content_hash, revision, encrypt_document, of_body,
}
use agent_transcript.Sources.{Load-cases, load}
use agent_transcript.LocalState.{
  LocalStore, SourceRecord, World, State, empty_id, not_now, unreadable, is_ready, sources_of,
  save_if_dirty,
}
use agent_transcript.LocalState.Diff.{diff}
use agent_transcript.Ingest.Scan.{
  Upload, Progress, Scan, is_known, fail_with, count_unchanged, piece_of, queue, seal, take_body,
  visit_known, visit, scan_loop, start, finish_scan, scan,
}
use agent_transcript.Ingest.Scan.Plan.{
  IsPlan, IsTracked, start-IsTracked, queued-known, queued-IsPlan,
}

module _ {S B H T : Type 0} (w : World H T) (encrypt : Bytes → Bytes → S → Result B × S) where
  -- The upload is the encryption, under its key, of a document of the session, whose content hash is
  -- that of the body.
  abbrev pub Seals : H → Bytes → Bytes → Upload B → Type 0
  Seals harness id hash u =
      (document : ArchiveDocument H T) × (at : S) × (document.harness ≡ harness)
      × ((w.content.transcript document.transcript).id ≡ id)
      × (content_hash w.content document ≡ ok hash)
      × ((encrypt_document w.content encrypt u.object_key document at).0 ≡ ok u.blob)

module _ {S B H T : Type 0} ⦃h : Harness H⦄ (base : Catalog H) (w : World H T)
    (encrypt : Bytes → Bytes → S → Result B × S) (len : B → ℕ) where
  revision-hash_of :
      (r : SourceRecord H) (repo_key : Bytes) (t : T) (hash : Bytes) (blob : B) (rev : Revision)
      → revision w.content
          (new_document r.harness repo_key t)
          hash
          r.freshness.updated_at
          (len blob)
        ≡ ok rev
      → hash_of rev ≡ hash
  unfolding revision of_body
  revision-hash_of r repo_key t hash blob rev e =
      let (key, named, last) = >>=-eq-ok (object_key hash) _ e in
      sym (ap hash_of (ok_injective last))

  queue-IsTracked :
      (r : SourceRecord H) (repo_key : Bytes) (t : T) (hash key : Bytes) (blob : B)
      (p p' : Progress H B)
      → IsTracked (Seals w encrypt) base p
      → is_known p.known r.harness (w.content.transcript t).id hash ≡ false
      → object_key hash ≡ ok key
      → Seals w encrypt r.harness
          (w.content.transcript t).id
          hash
          (record { object_key = key; blob = blob })
      → queue w encrypt len r repo_key t hash key blob p ≡ ok p'
      → IsTracked (Seals w encrypt) base p'
  unfolding queue
  queue-IsTracked r repo_key t hash key blob p p' tracked new has_key sealed done =
      let (rev, made, rest) =
        >>=-eq-ok
          (revision w.content (new_document r.harness repo_key t) hash r.freshness.updated_at
            (len blob))
          _ done in
      let (merged, joined, last) =
        >>=-eq-ok
          (merge_catalogs p.incoming (piece_of r.harness repo_key (w.content.transcript t).id rev))
          _ rest in
      let same = revision-hash_of r repo_key t hash blob rev made in
      let id = (w.content.transcript t).id in
      subst (IsTracked (Seals w encrypt) base) (ok_injective last) (
        queued-known (Seals w encrypt) base p tracked r.harness repo_key id hash key blob rev merged
            new has_key same joined,
        queued-IsPlan (Seals w encrypt) base p tracked r.harness repo_key id hash key blob rev
            merged new has_key same joined sealed,
      )

  seal-IsTracked :
      (r : SourceRecord H) (repo_key : Bytes) (t : T) (hash : Bytes) (p p' : Progress H B) (s : S)
      → IsTracked (Seals w encrypt) base p
      → is_known p.known r.harness (w.content.transcript t).id hash ≡ false
      → content_hash w.content (new_document r.harness repo_key t) ≡ ok hash
      → (seal w encrypt len r repo_key t hash p s).0 ≡ ok p'
      → IsTracked (Seals w encrypt) base p'
  unfolding seal new_document
  seal-IsTracked r repo_key t hash p p' s tracked new hashed done =
      elim (Result-cases (object_key hash)) [
        | inl (key, e) ↦
            let (sealed, _) =
              encrypt_document w.content encrypt key (new_document r.harness repo_key t) s in
            let opened : (sealed >>= (λ blob. queue w encrypt len r repo_key t hash key blob p))
                ≡ ok p' =
              (rw (seal, e) refl) ∙ done in
            let (blob, encrypted, queued) =
              >>=-eq-ok sealed (λ blob. queue w encrypt len r repo_key t hash key blob p) opened in
            queue-IsTracked r repo_key t hash key blob p p' tracked new e
              (new_document r.harness repo_key t, s, refl, refl, hashed, encrypted) queued
        | inr (failure, e) ↦
            let opened : err failure ≡ ok p' = (rw (seal, e) refl) ∙ done in absurd (cc)
      ]

  eq-IsTracked :
      (q p' : Progress H B)
      → IsTracked (Seals w encrypt) base q
      → ok q ≡ ok p'
      → IsTracked (Seals w encrypt) base p'
  eq-IsTracked q p' tracked e = subst (IsTracked (Seals w encrypt) base) (ok_injective e) tracked

  take_body-IsTracked :
      (r : SourceRecord H) (repo_key : Bytes) (t : T) (p p' : Progress H B) (s : S)
      → IsTracked (Seals w encrypt) base p
      → (take_body w encrypt len r repo_key t p s).0 ≡ ok p'
      → IsTracked (Seals w encrypt) base p'
  unfolding take_body fail_with count_unchanged
  take_body-IsTracked r repo_key t p p' s tracked done =
      let id = (w.content.transcript t).id in
      elim (Bool-cases (is_empty id)) [
        | inl nothing ↦
            eq-IsTracked (fail_with (empty_id r.harness r.source) p) p' tracked
              ((rw (take_body, nothing) refl) ∙ done)
        | inr named ↦
            elim (Result-cases (content_hash w.content (new_document r.harness repo_key t))) [
              | inl (hash, e) ↦ elim (Bool-cases (is_known p.known r.harness id hash)) [
                | inl known ↦
                    eq-IsTracked (count_unchanged p) p' tracked
                      ((rw (take_body, named, e, known) refl) ∙ done)
                | inr new ↦
                    seal-IsTracked r repo_key t hash p p' s tracked new e
                      ((rw (take_body, named, e, new) refl) ∙ done)
              ]
              | inr (failure, e) ↦
                  let opened : err failure ≡ ok p' = (rw (take_body, named, e) refl) ∙ done in
                  absurd (cc)
            ]
      ]

  visit_known-IsTracked :
      (r : SourceRecord H) (repo_key : Bytes) (p p' : Progress H B) (s : S)
      → IsTracked (Seals w encrypt) base p
      → (visit_known w encrypt len r repo_key p s).0 ≡ ok p'
      → IsTracked (Seals w encrypt) base p'
  unfolding visit_known fail_with count_unchanged
  visit_known-IsTracked r repo_key p p' s tracked done =
      elim (Bool-cases (is_known p.known r.harness r.session_id r.freshness.content_hash)) [
        | inl known ↦
            eq-IsTracked (count_unchanged p) p' tracked ((rw (visit_known, known) refl) ∙ done)
        | inr new ↦ elim (Load-cases (load w.sites r.harness r.source)) [
          | inl (t, e) ↦
              take_body-IsTracked r repo_key t p p' s tracked
                ((rw (visit_known, new, e) refl) ∙ done)
          | inr (inl (m, e)) ↦
              eq-IsTracked (fail_with (not_now r.harness r.source m) p) p' tracked
                ((rw (visit_known, new, e) refl) ∙ done)
          | inr (inr (m, e)) ↦
              eq-IsTracked (fail_with (unreadable r.harness r.source m) p) p' tracked
                ((rw (visit_known, new, e) refl) ∙ done)
        ]
      ]

  visit-IsTracked :
      (r : SourceRecord H) (p p' : Progress H B) (s : S)
      → IsTracked (Seals w encrypt) base p
      → (visit w encrypt len r p s).0 ≡ ok p'
      → IsTracked (Seals w encrypt) base p'
  unfolding visit
  visit-IsTracked r p p' s tracked done = elim (Bool-cases (is_ready r.state)) [
    | inl is_due ↦ elim (Option-cases r.repo_key) [
      | inl e ↦ eq-IsTracked p p' tracked ((rw (visit, is_due, e) refl) ∙ done)
      | inr (repo_key, e) ↦
          visit_known-IsTracked r repo_key p p' s tracked ((rw (visit, is_due, e) refl) ∙ done)
    ]
    | inr not_due ↦ eq-IsTracked p p' tracked ((rw (visit, not_due) refl) ∙ done)
  ]

  scan_loop-IsTracked :
      (records : List (Bytes × SourceRecord H)) (p p' : Progress H B) (s : S)
      → IsTracked (Seals w encrypt) base p
      → (scan_loop w encrypt len records p s).0 ≡ ok p'
      → IsTracked (Seals w encrypt) base p'
  unfolding scan_loop
  scan_loop-IsTracked [] p p' s tracked done = eq-IsTracked p p' tracked done
  scan_loop-IsTracked ((k, r) ∷ records) p p' s tracked done =
      elim (Result-cases (visit w encrypt len r p s).0) [
        | inl (next, e) ↦
            scan_loop-IsTracked records next p' (visit w encrypt len r p s).1
              (visit-IsTracked r p next s tracked e) ((rw (scan_loop, e) refl) ∙ done)
        | inr (failure, e) ↦
            let opened : err failure ≡ ok p' = (rw (scan_loop, e) refl) ∙ done in absurd (cc)
      ]

  -- A scan that succeeds uploads the objects of exactly the bodies that it adds to the catalog, each
  -- encrypted from a document with the body's hash, and the catalog has none of them.
  pub scan-IsPlan :
      (atomic_write : State H → S → Result (Unit {0}) × S) (local : LocalStore H) (s : S)
      (found : Scan H B)
      → (scan w encrypt len atomic_write local base s).0 ≡ ok found
      → IsPlan (Seals w encrypt) base found.incoming found.uploads
  unfolding scan finish_scan
  scan-IsPlan atomic_write local s found done =
      elim (Result-cases (save_if_dirty atomic_write (diff w local) s).0) [
        | inl (saved, e) ↦
            let s' = (save_if_dirty atomic_write (diff w local) s).1 in
            let (looped, _) = scan_loop w encrypt len (sources_of saved) (start saved base) s' in
            let opened : (looped >>= (λ p. ok (finish_scan saved p))) ≡ ok found =
              (rw (scan, e) refl) ∙ done in
            let (p, looped_ok, last) = >>=-eq-ok looped (λ p. ok (finish_scan saved p)) opened in
            let tracked =
              scan_loop-IsTracked (sources_of saved) (start saved base) p s'
                (start-IsTracked (Seals w encrypt) base saved) looped_ok in
            subst (λ f. IsPlan (Seals w encrypt) base f.incoming f.uploads) (ok_injective last)
              tracked.1
        | inr (failure, e) ↦
            let opened : err failure ≡ ok found = (rw (scan, e) refl) ∙ done in absurd (cc)
      ]
