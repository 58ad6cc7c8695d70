-- ===== src/Examples/Caching.antt =====
-- A cache directory of one file whose body has been damaged, and a bucket that holds the right one.
use agent_transcript.Prelude.{
  ℕ, Bytes, codes, bytes_eq, ◌≡◌, refl, true, Option, none, some, List, [], ◌∷◌,
}
use agent_transcript.Errors.{Result, ok}
use agent_transcript.Bucket.{Bucket}
use agent_transcript.Freshness.{remote}
use agent_transcript.Document.{ArchiveDocument}
use agent_transcript.Merge.{MergedView}
use agent_transcript.Sessions.Transcripts.{transcript, ArchivedBody, transcript-ArchivedBody}
use agent_transcript.Examples.{numbered, codex, repo, some_info}
use agent_transcript.Plaintext.{Entry, Files, load_plaintext, prune_plaintext_cache}
use agent_transcript.Plaintext.Integrity.{load_plaintext-hash}
use agent_transcript.Plaintext.Pruning.{RemovesCached, prune_plaintext_cache-RemovesCached}

-- The state is the body of the one file, if it is there.
abbrev one_file : Files (Option Bytes)
one_file = record {
  file_of = λ hash. hash;
  read = λ path s. (s, s);
  touch = λ path s. s;
  remove = λ path s. (ok tt, none);
  atomic_write = λ path bytes s. (ok tt, some bytes);
  read_dir = λ s. (none, s);
}

abbrev right_body : Bucket (Option Bytes) Bytes Bytes
right_body = record {
  get = λ key s. (ok (some (record { body = codes "right"; etag = none })), s);
  put = λ key blob condition s. (ok tt, s);
  delete = λ key s. (ok tt, s);
  list_detailed = λ prefix s. (ok [], s);
}

-- For the example a text is its own digest, and bodies are not encrypted.
abbrev digest : Bytes → Bytes
digest bytes = bytes

abbrev open_body : Bytes → Bytes → Result Bytes
open_body key blob = ok blob

loading_again :
    (load_plaintext one_file right_body open_body digest 5
      (codes "key")
      (codes "right")
      (some (codes "wrong"))).0
    ≡ ok (codes "right")
unfolding load_plaintext bytes_eq
loading_again = refl

load_plaintext-hash_example : digest (codes "right") ≡ codes "right"
load_plaintext-hash_example =
    load_plaintext-hash one_file right_body open_body digest 5 (codes "key") (codes "right")
      (some (codes "wrong")) (codes "right") loading_again

abbrev archived : MergedView ℕ
archived = record {
  harness = codex;
  session_id = codes "s1";
  pick = remote;
  info = some_info;
  sort_at = 0;
  object_key = some (codes "key");
  content_hash = codes "right";
  local_source = none;
  local_fingerprint = none;
}

-- A text is a document whose transcript is the text.
abbrev decoded : Bytes → Result (ArchiveDocument ℕ Bytes)
decoded bytes = ok (record { schema = 1; harness = codex; repo_key = repo; transcript = bytes })

reading_archived :
    (transcript one_file right_body open_body digest decoded [] 5 archived (some (codes "wrong"))).0
    ≡ ok (codes "right")
unfolding transcript bytes_eq
reading_archived = refl

transcript-ArchivedBody_example : ArchivedBody digest decoded (codes "right") (codes "right")
transcript-ArchivedBody_example =
    transcript-ArchivedBody one_file right_body open_body digest decoded [] 5 archived
      (some (codes "wrong")) (codes "right") refl reading_archived

abbrev foreign : Entry
foreign = record {
  path = codes "notes.json";
  is_file = true;
  is_json = true;
  stem = codes "notes";
  modified = 1;
  size = 1000000000;
}

abbrev crowded : Files (List Bytes)
crowded = record {
  file_of = λ hash. hash;
  read = λ path s. (none, s);
  touch = λ path s. s;
  remove = λ path s. (ok tt, path ∷ s);
  atomic_write = λ path bytes s. (ok tt, s);
  read_dir = λ s. (some (foreign ∷ []), s);
}

prune_plaintext_cache-RemovesCached_example :
    RemovesCached crowded (foreign ∷ []) [] (prune_plaintext_cache crowded 3000000000000000000 [])
prune_plaintext_cache-RemovesCached_example =
    prune_plaintext_cache-RemovesCached crowded 3000000000000000000 []
