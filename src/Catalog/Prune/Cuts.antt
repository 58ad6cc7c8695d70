-- ===== src/Catalog/Prune/Cuts.antt =====
-- The list of revisions, cut at the one that `choose_current` names; the pruning of that list.
use agent_transcript.Prelude.{
  ℕ, suc, ◌≡◌, refl, sym, ap, ◌∙◌, subst, arith, true, false, some, List, [], ◌∷◌, ◌++◌, leb, any,
  All, map, length, get_elem?,
}
use agent_transcript.Errors.{ok}
use agent_transcript.Freshness.{Freshness, Current, choose_current, display_of, is_ambiguous}
use agent_transcript.Freshness.Order.{Outranks}
use agent_transcript.Freshness.Choice.{choose_current-Choice, clashes}
use agent_transcript.Catalog.{Revision}
use agent_transcript.Catalog.Prune.{superseded, prune_revisions, keep_current, freshness_of}
use agent_transcript.Catalog.Prune.Survivors.{superseded_iff, survivors, keep_current-survivors}

-- A list of revisions, cut where the list of their freshness is cut.
record Cut (revisions : List Revision) (front : List Freshness) (current : Freshness)
    (back : List Freshness) : Type 0 where
  pre : List Revision
  here : Revision
  post : List Revision
  whole : revisions ≡ pre ++ here ∷ post
  front_of : map freshness_of pre ≡ front
  current_of : here.freshness ≡ current
  back_of : map freshness_of post ≡ back

cut :
    (revisions : List Revision) (front : List Freshness) (current : Freshness)
    (back : List Freshness)
    → map freshness_of revisions ≡ front ++ current ∷ back
    → Cut revisions front current back
cut [] [] current back e = absurd (cc)
cut [] (f ∷ front) current back e = absurd (cc)
cut (r ∷ rs) [] current back e = record {
  pre = [];
  here = r;
  post = rs;
  whole = refl;
  front_of = refl;
  current_of = cc;
  back_of = cc;
}
cut (r ∷ rs) (f ∷ front) current back e =
    let c = cut rs front current back (cc) in
    record {
      pre = r ∷ c.pre;
      here = c.here;
      post = c.post;
      whole = ap (λ l. r ∷ l) c.whole;
      front_of = cc c.front_of;
      current_of = c.current_of;
      back_of = c.back_of;
    }

superseded_all :
    (current : Freshness) (pre : List Revision)
    → All (λ f. Outranks current f) (map freshness_of pre)
    → All (λ r. superseded current r ≡ true) pre
superseded_all current [] h = tt
superseded_all current (r ∷ pre) (o, h) =
    ((superseded_iff current r).1 o, superseded_all current pre h)

length-map_freshness : (rs : List Revision) → length (map freshness_of rs) ≡ length rs
length-map_freshness [] = refl
length-map_freshness (r ∷ rs) = ap suc (length-map_freshness rs)

-- What `choose_current` says of a list of revisions.
pub record CurrentAt (revisions : List Revision) (c : Current) : Type 0 where
  pub pre : List Revision
  pub here : Revision
  pub post : List Revision
  pub whole : revisions ≡ pre ++ here ∷ post
  pub chosen : choose_current (map freshness_of revisions) ≡ ok c
  pub position : display_of c ≡ length pre
  pub old : All (λ r. superseded here.freshness r ≡ true) pre
  pub top : All (λ f. ¬ Outranks f here.freshness) (map freshness_of post)
  pub tie : is_ambiguous c ≡ any (clashes here.freshness) (map freshness_of post)

pub current_at : (r : Revision) (rs : List Revision) → (c : Current) × CurrentAt (r ∷ rs) c
current_at r rs =
    let (c, chosen, choice) = choose_current-Choice r.freshness (map freshness_of rs) in
    let k = cut (r ∷ rs) choice.front choice.current choice.back choice.whole in
    (
      c,
      record {
        pre = k.pre;
        here = k.here;
        post = k.post;
        whole = k.whole;
        chosen = chosen;
        position = choice.position ∙ ap length (sym k.front_of) ∙ length-map_freshness k.pre;
        old = superseded_all k.here.freshness k.pre (rw (k.front_of, k.current_of) choice.older);
        top = rw (k.current_of, k.back_of) choice.top;
        tie = rw (k.current_of, k.back_of) choice.tie;
      },
    )

pub not_superseded_self : (b : Revision) → superseded b.freshness b ≡ false
not_superseded_self b = ground (arith, superseded_iff b.freshness b)

at_middle :
    (pre : List Revision) (b : Revision) (post : List Revision)
    → get_elem? (map freshness_of (pre ++ b ∷ post)) (length pre) ≡ some b.freshness
at_middle [] b post = refl
at_middle (p ∷ pre) b post = at_middle pre b post

pub at_current :
    (revisions pre post : List Revision) (b : Revision) (i : ℕ)
    → revisions ≡ pre ++ b ∷ post
    → i ≡ length pre
    → get_elem? (map freshness_of revisions) i ≡ some b.freshness
at_current revisions pre post b i e p = rw (e, p) (at_middle pre b post)

only_one :
    (r b : Revision) (pre post : List Revision)
    → ◌≡◌ {A = List Revision} (r ∷ []) (pre ++ b ∷ post)
    → b ≡ r
only_one r b [] post e = cc
only_one r b (p ∷ []) post e = cc
only_one r b (p ∷ q ∷ pre) post e = cc

survivors_one : (r b : Revision) → b ≡ r → r ∷ [] ≡ survivors b.freshness [] (r ∷ [])
unfolding survivors
survivors_one r b e = ground (arith, not_superseded_self r)

-- Pruning leaves the survivors: in the order of the list, the revisions that the current one does
-- not outrank, without the later copies of a body.
pub prune_revisions-survivors :
    (r : Revision) (rs : List Revision) (c : Current) (k : CurrentAt (r ∷ rs) c)
    → prune_revisions (r ∷ rs) ≡ survivors k.here.freshness [] (r ∷ rs)
unfolding prune_revisions
prune_revisions-survivors r [] c k = survivors_one r k.here (only_one r k.here k.pre k.post k.whole)
prune_revisions-survivors r (s ∷ rs) c k =
    let found : get_elem? (map freshness_of (r ∷ s ∷ rs)) (display_of c) ≡ some k.here.freshness =
      at_current (r ∷ s ∷ rs) k.pre k.post k.here (display_of c) k.whole k.position in
    let many : leb (length (r ∷ s ∷ rs)) 1 ≡ false = ground arith in
    rw (many, k.chosen, found)
      (subst (λ l. keep_current l (display_of c) k.here.freshness ≡ survivors k.here.freshness [] l)
        (sym k.whole)
        (keep_current-survivors k.here.freshness k.pre k.here k.post (display_of c) k.position k.old
          (not_superseded_self k.here)))
