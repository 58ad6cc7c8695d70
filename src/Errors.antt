-- ===== src/Errors.antt =====
-- src/error.rs: the error enum, and `Result` with `?` as bind. A `Msg` error carries one text in the
-- program; here it carries the call site that built the text, with the values in it.
use agent_transcript.Prelude.{ℕ, Bytes, ◌≡◌, refl, ◌⊎◌, inl, inr}

-- The text in a `LoadFailure` of src/sources.rs; the two that it makes itself are constructors.
pub data Failure : Type 0 where
  shown : (message : Bytes) → Failure
  not_in_database : (source path : Bytes) → Failure
  no_store : (harness source : Bytes) → Failure

pub data Msg : Type 0 where
  session_has_no_revisions : Msg
  no_revisions : (harness session_id : Bytes) → Msg
  two_repositories : (harness session_id existing incoming : Bytes) → Msg
  hash_not_hex : (content_hash : Bytes) → Msg
  wrong_object_key : (content_hash stored expected : Bytes) → Msg
  id_ambiguous prefix_ambiguous title_ambiguous no_session_matches : (src : Bytes) → Msg
  catalog_conflicted index_out_of_bounds : Msg
  missing_object : (object_key : Bytes) → Msg
  object_mismatch : (object_key content_hash : Bytes) → Msg
  compressing decompressing : (object_key : Bytes) → Msg
  empty_url not_utf8 : Msg
  invalid_url : (raw reason : Bytes) → Msg
  unsupported_scheme : (raw scheme : Bytes) → Msg
  no_host not_a_remote : (raw : Bytes) → Msg
  no_repository : (host path : Bytes) → Msg
  git_failed : (message : Bytes) → Msg
  cannot_resolve_origin : (dir : Bytes) → Msg
  not_a_database : (harness : Bytes) → Msg
  store_failed : (message : Bytes) → Msg
  not_archived : (failures : ℕ) → Msg
  request_failed : (method uri message : Bytes) → Msg
  reading_failed : (key : Bytes) → Msg
  listing_failed : (prefix : Bytes) → Msg
  http_status : (op target : Bytes) (status : ℕ) (detail : Bytes) → Msg
  truncated_without_token non_numeric_size : (prefix : Bytes) → Msg
  invalid_xml : (prefix reason : Bytes) → Msg
  local_without_source remote_without_object : (harness session_id : Bytes) → Msg
  reading : (harness session_id : Bytes) → Failure → Msg

pub data Error : Type 0 where
  msg : Msg → Error
  io json : Error
  crypto format : (key : Bytes) → Error
  schema : ℕ → Error
  precondition : Error
  ambiguous : (harness session_id : Bytes) → Error

pub data Result {ℓ} (T : Type ℓ) : Type ℓ where
  err : Error → Result T
  ok : T → Result T

module _ {ℓ κ} {T : Type ℓ} {U : Type κ} where
  infixl 4 ◌>>=◌
  -- `?`
  abbrev pub ◌>>=◌ : Result T → (T → Result U) → Result U
  err failure >>= next = err failure
  ok value >>= next = next value

  -- A chain that succeeds has succeeded in its first step.
  pub >>=-eq-ok :
      (first : Result T) (next : T → Result U) {u : U}
      → (first >>= next) ≡ ok u
      → (t : T) × (first ≡ ok t) × (next t ≡ ok u)
  >>=-eq-ok (err failure) next chain = cc
  >>=-eq-ok (ok value) next chain = (value, refl, chain)

pub ok_injective {ℓ} : {T : Type ℓ} {t u : T} → ok t ≡ ok u → t ≡ u
ok_injective e = cc

pub Result-cases {ℓ} :
    {T : Type ℓ} (r : Result T) → ((t : T) × (r ≡ ok t)) ⊎ ((e : Error) × (r ≡ err e))
Result-cases (ok t) = inl (t, refl)
Result-cases (err e) = inr (e, refl)

infixl 4 ◌>>◌
abbrev pub ◌>>◌ {κ} : {U : Type κ} → Result (Unit {0}) → Result U → Result U
err failure >> rest = err failure
ok done >> rest = rest
