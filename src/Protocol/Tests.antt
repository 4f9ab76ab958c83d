-- ===== src/Protocol/Tests.antt =====
-- Runs on a provider with two logs, and on a short library name.
use set_protocol_v.Base.{
  ℕ, ◌≡◌, refl, true, [], ◌∷◌, some, ok, err, invalid_transaction_hash, unqualified_name,
}
use set_protocol_v.Protocol.{
  Provider, get_created_set_token_address, convert_library_name_to_link_id,
}

abbrev node : Provider ℕ
node = record {
  wait_for_transaction = λ hash. ok true;
  set_token_created_logs = ok (1 ∷ 2 ∷ []);
  parse_set_token = λ log. ok (log ∷ []);
}

last_log_run : get_created_set_token_address node (some (b'0' ∷ [])) ≡ ok (2 ∷ [])
unfolding get_created_set_token_address
last_log_run = refl

empty_hash_run : get_created_set_token_address node (some []) ≡ err invalid_transaction_hash
unfolding get_created_set_token_address
empty_hash_run = refl

unqualified_run : convert_library_name_to_link_id (λ s. s) b'/' (b'A' ∷ []) ≡ err unqualified_name
unfolding convert_library_name_to_link_id
unqualified_run = refl
