-- ===== src/RepoId/Agree.antt =====
-- src/repo_id.rs: the two spellings of a remote address.
use agent_transcript.Prelude.{
  ℕ, Bytes, ◌≡◌, refl, ap, true, Option, none, some, ◌∷◌, ==_iff, trim_matches, drop_leading,
  to_ascii_lowercase, reverse,
}
use agent_transcript.Fragment.{split_once}
use agent_transcript.RepoId.{
  Url, Parsed, url, finish, kept_port, is_supported, host_of, normalize_url, normalize_scp,
}

drop_leading-cons : (c : ℕ) (s : Bytes) → drop_leading c (c ∷ s) ≡ drop_leading c s
unfolding drop_leading
drop_leading-cons c s = rw (drop_leading, (==_iff c c).1 refl) refl

trim_matches-cons : (c : ℕ) (s : Bytes) → trim_matches c (c ∷ s) ≡ trim_matches c s
unfolding trim_matches
trim_matches-cons c s = ap (λ t. reverse (drop_leading c (reverse t))) (drop_leading-cons c s)

finish-slash :
    (host path : Bytes) (port : Option ℕ) → finish host port (b'/' ∷ path) ≡ finish host port path
unfolding finish
finish-slash host path port = rw (finish, trim_matches-cons b'/' path) refl

-- A URL of a supported scheme without a port of its own, and the scp-like address of the same host and
-- path, give the same key, or are refused for the same reason.
pub normalize_url_scp :
    (parse : Bytes → Parsed) (raw scp host_part host path : Bytes) (u : Url)
    → parse raw ≡ url u
    → is_supported u.scheme ≡ true
    → u.host_str ≡ some host
    → kept_port u.port ≡ none
    → u.path ≡ b'/' ∷ path
    → split_once b':' scp ≡ some (host_part, path)
    → to_ascii_lowercase host ≡ to_ascii_lowercase (host_of host_part)
    → normalize_url parse raw ≡ normalize_scp scp
unfolding normalize_url normalize_scp
normalize_url_scp parse raw scp host_part host path u parsed supported host_str no_port same_path
      split lower =
    simp (
      normalize_url,
      parsed,
      supported,
      host_str,
      no_port,
      same_path,
      normalize_scp,
      split,
      lower,
      finish-slash (to_ascii_lowercase (host_of host_part)) path none,
    )
