-- ===== src/Store/Pages.antt =====
-- src/store.rs: the listing loop against the pages that the store serves.
use agent_transcript.Prelude.{
  ℕ, zero, suc, ◌≤◌, Bytes, ◌≡◌, refl, sym, ap, ◌∙◌, true, false, Option, none, some, List, [],
  ◌++◌, append_assoc, arith,
}
use agent_transcript.Errors.{Error, Result, ok, err, msg, truncated_without_token}
use agent_transcript.Bucket.{Listed}
use agent_transcript.Store.{R2, Net, list_page, list_loop, list_detailed_sync}
use agent_transcript.Store.Xml.{Page}

module _ {S : Type 0} (net : Net S) (r2 : R2) (prefix : Bytes) where
  -- The pages behind a token in order, from one state of the world to another: how many they are, and
  -- what the listing comes to.
  pub data Pages : Option Bytes → S → ℕ → Result (List Listed) → S → Type 0 where
    last :
        (token : Option Bytes) (s : S) (page : Page)
        → (list_page net r2 prefix token s).0 ≡ ok page
        → page.truncated ≡ false
        → Pages token s 1 (ok page.objects) (list_page net r2 prefix token s).1
    cut_off :
        (token : Option Bytes) (s : S) (page : Page)
        → (list_page net r2 prefix token s).0 ≡ ok page
        → page.truncated ≡ true
        → page.next_token ≡ none
        → Pages token s 1
            (err (msg (truncated_without_token prefix)))
            (list_page net r2 prefix token s).1
    refused :
        (token : Option Bytes) (s : S) (e : Error)
        → (list_page net r2 prefix token s).0 ≡ err e
        → Pages token s 1 (err e) (list_page net r2 prefix token s).1
    more :
        (token : Option Bytes) (s s' : S) (page : Page) (next : Bytes) (n : ℕ)
        (rest : Result (List Listed))
        → (list_page net r2 prefix token s).0 ≡ ok page
        → page.truncated ≡ true
        → page.next_token ≡ some next
        → Pages (some next) (list_page net r2 prefix token s).1 n rest s'
        → Pages token s
            (suc n)
            (elim rest [ err e ↦ err e | ok objects ↦ ok (page.objects ++ objects) ])
            s'

  Pages-pos :
      {token : Option Bytes} {s s' : S} {n : ℕ} {listing : Result (List Listed)}
      → Pages token s n listing s'
      → 1 ≤ n
  Pages-pos (last token s page e whole) = omega arith
  Pages-pos (cut_off token s page e cut no_token) = omega arith
  Pages-pos (refused token s e failed) = omega arith
  Pages-pos (more token s s' page next k rest e cut has_next pages) = omega arith

  -- The objects of the pages before, in front.
  abbrev after : List Listed → Result (List Listed) → Result (List Listed)
  after objects (err e) = err e
  after objects (ok found) = ok (objects ++ found)

  after-after :
      (objects page : List Listed) (rest : Result (List Listed))
      → after objects (elim rest [ err e ↦ err e | ok found ↦ ok (page ++ found) ])
        ≡ after (objects ++ page) rest
  after-after objects page (err e) = refl
  after-after objects page (ok found) = ap ok (sym (append_assoc objects page found))

  list_loop-Pages :
      (fuel n : ℕ) (token : Option Bytes) (s s' : S) (objects : List Listed)
      (listing : Result (List Listed))
      → Pages token s n listing s'
      → n ≤ fuel
      → list_loop net r2 fuel prefix token objects s ≡ some (after objects listing, s')
  unfolding list_loop
  list_loop-Pages zero n token s s' objects listing pages le =
      absurd (omega (arith, le, Pages-pos pages))
  list_loop-Pages (suc fuel) _ _ _ _ objects _ (last token s page e whole) le =
      rw (list_loop, e, whole) refl
  list_loop-Pages (suc fuel) _ _ _ _ objects _ (cut_off token s page e cut no_token) le =
      rw (list_loop, e, cut, no_token) refl
  list_loop-Pages (suc fuel) _ _ _ _ objects _ (refused token s failure e) le =
      rw (list_loop, e) refl
  list_loop-Pages (suc fuel) _ _ _ _ objects _
        (more token s s' page next k rest e cut has_next pages) le =
      rw (list_loop, e, cut, has_next)
        (list_loop-Pages fuel k (some next) (list_page net r2 prefix token s).1 s'
            (objects ++ page.objects) rest pages (omega (arith, le))
          ∙ ap (λ r. some (r, s')) (sym (after-after objects page.objects rest)))

  after-nil : (listing : Result (List Listed)) → after [] listing ≡ listing
  after-nil (err e) = refl
  after-nil (ok found) = refl

  -- When the store serves finitely many pages, the loop ends, and gives the objects of all of them in
  -- order or the first error. Fuel for as many rounds as there are pages is enough.
  pub list_detailed_sync-Pages :
      (fuel n : ℕ) (s s' : S) (listing : Result (List Listed))
      → Pages none s n listing s'
      → n ≤ fuel
      → list_detailed_sync net r2 fuel prefix s ≡ some (listing, s')
  unfolding list_detailed_sync
  list_detailed_sync-Pages fuel n s s' listing pages le =
      list_loop-Pages fuel n none s s' [] listing pages le
      ∙ ap (λ r. some (r, s')) (after-nil listing)
