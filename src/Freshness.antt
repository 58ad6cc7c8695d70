-- ===== src/Freshness.antt =====
-- src/merge.rs, first half: what makes one snapshot of a session newer than another, and the current
-- one among several. A `DateTime<Utc>` is the number of nanoseconds since `DateTime::MIN_UTC`; the
-- code only compares these and takes differences.
pub mod Order
pub mod Choice
use agent_transcript.Prelude.{
  ℕ, zero, suc, ◌+◌, Bytes, bytes_eq, Bool, true, false, Option, none, some, List, [], ◌∷◌, ltb,
  ◌==◌, if◌then◌else◌,
}
use agent_transcript.Errors.{Result, ok, err, msg, session_has_no_revisions}

pub record Freshness : Type 0 where
  pub updated_at : Option ℕ
  pub last_message_at : Option ℕ
  pub message_count : ℕ
  pub content_hash : Bytes

pub record Info : Type 0 where
  pub started_at : ℕ
  pub title : Option Bytes
  pub cwd : Option Bytes
  pub git_branch : Option Bytes
  pub model : Option Bytes

pub data Rank : Type 0 where
  left right same ambiguous : Rank

pub data Pick : Type 0 where
  local remote ambiguous : Pick

pub data Current : Type 0 where
  index : ℕ → Current
  ambiguous : (display : ℕ) → Current

-- `Option::or`
abbrev pub or_else {ℓ} : {A : Type ℓ} → Option A → Option A → Option A
or_else (some a) b = some a
or_else none b = b

-- `left.updated_at.or(left.last_message_at)`
abbrev pub time : Freshness → Option ℕ
time f = or_else f.updated_at f.last_message_at

-- The first match of `rank`: its arms that return, and `rest` for the arms that fall through.
rank_times : Option ℕ → Option ℕ → Rank → Rank
rank_times (some left_time) (some right_time) rest =
    if left_time == right_time then rest else if ltb right_time left_time then left else right
rank_times (some _) none rest = left
rank_times none (some _) rest = right
rank_times none none rest = rest

rank_hashes : Bytes → Bytes → Rank
rank_hashes l r = if bytes_eq l r then same else Rank.ambiguous

rank_counts : ℕ → ℕ → Rank → Rank
rank_counts l r rest = if ltb r l then left else if ltb l r then right else rest

unfoldable pub rank : Freshness → Freshness → Rank
unfolding rank_times rank_counts rank_hashes
rank l r =
    rank_times (time l) (time r)
      (rank_counts l.message_count r.message_count (rank_hashes l.content_hash r.content_hash))

unfoldable pub pick_of : Rank → Pick
pick_of left = local
pick_of same = local
pick_of right = remote
pick_of Rank.ambiguous = Pick.ambiguous

unfoldable pub prefer : Freshness → Freshness → Pick
unfolding pick_of
prefer l r = pick_of (rank l r)

-- The variables of the loop in `choose_current`, with `current` for `items[best]`.
pub record Best : Type 0 where
  pub best : ℕ
  pub current : Freshness
  pub tied : Bool

unfoldable pub visit_rank : ℕ → Freshness → Best → Rank → Best
visit_rank i f s left = s
visit_rank i f s right = record { best = i; current = f; tied = false }
visit_rank i f s same = s
visit_rank i f s Rank.ambiguous = record s { tied = true }

unfoldable pub visit : ℕ → Freshness → Best → Best
unfolding visit_rank
visit i f s = visit_rank i f s (rank s.current f)

-- `for (index, freshness) in indexes`, from `index = i`.
unfoldable pub choose_loop : ℕ → List Freshness → Best → Best
choose_loop i [] s = s
choose_loop i (f ∷ items) s = choose_loop (i + 1) items (visit i f s)

unfoldable pub current_of : Best → Current
current_of s = if s.tied then Current.ambiguous s.best else index s.best

unfoldable pub choose_current : List Freshness → Result Current
unfolding choose_loop visit current_of
choose_current [] = err (msg session_has_no_revisions)
choose_current (f ∷ items) =
    ok (current_of (choose_loop 1 items (record { best = 0; current = f; tied = false })))

-- The revision that a reader shows: the current one, or the one displayed for an ambiguous session.
abbrev pub display_of : Current → ℕ
display_of (index i) = i
display_of (Current.ambiguous i) = i

abbrev pub is_ambiguous : Current → Bool
is_ambiguous (index i) = false
is_ambiguous (Current.ambiguous i) = true
