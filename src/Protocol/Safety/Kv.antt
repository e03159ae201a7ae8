-- ===== src/Protocol/Safety/Kv.antt =====
-- The decoders of SET, QPUSH, the batch requests and the multi-value response never read out of range.
use flin.Prelude.{ℕ, zero, suc, ◌+◌, ◌≢◌, List, arith}
use flin.Wire.Outcome.{Bytes, panic}
use flin.Wire.Reader.{
  Safe, Safe-pure, Safe-need, Safe-uint, Safe-bytes, Safe-word, Safe-chunk, Safe-string, Safe-map,
  run-Safe,
}
use flin.Protocol.Decode.Kv.{
  decode_set_request, decode_mset_request, decode_mget_request, read_pairs, read_keys,
}
use flin.Protocol.Decode.Queue.{decode_qpush_request}
use flin.Protocol.Decode.Response.{decode_multi_value_response, read_values}

pub decode_set-ne-panic : (payload : Bytes) → decode_set_request payload ≢ panic
unfolding decode_set_request
decode_set-ne-panic payload = run-Safe _ payload (
    Safe-need 0 6 _ _ (
      Safe-uint 6 2 4 _ (omega arith) λ n. Safe-need 4 (n + 4) _ _ (
        Safe-bytes (n + 4) n 4 _ (omega arith)
          λ _. Safe-uint 4 4 0 _ (omega arith) λ v. Safe-chunk 0 v _ _ λ _. Safe-pure 0 _)))

pub decode_qpush-ne-panic : (payload : Bytes) → decode_qpush_request payload ≢ panic
unfolding decode_qpush_request
decode_qpush-ne-panic payload = run-Safe _ payload (
    Safe-need 0 6 _ _ (
      Safe-uint 6 2 4 _ (omega arith) λ n. Safe-need 4 (n + 4) _ _ (
        Safe-bytes (n + 4) n 4 _ (omega arith)
          λ _. Safe-uint 4 4 0 _ (omega arith) λ v. Safe-chunk 0 v _ _ λ _. Safe-pure 0 _)))

read_pairs-Safe : (rounds : ℕ) (keys values : List Bytes) → Safe 0 (read_pairs rounds keys values)
unfolding read_pairs
read_pairs-Safe zero keys values = Safe-pure 0 _
read_pairs-Safe (suc rounds) keys values = Safe-word 0 2 _ _ λ n. Safe-need 0 (n + 4) _ _ (
    Safe-bytes (n + 4) n 4 _ (omega arith)
      λ _. Safe-uint 4 4 0 _ (omega arith) λ v. Safe-chunk 0 v _ _ λ _. read_pairs-Safe rounds _ _)

pub decode_mset-ne-panic : (payload : Bytes) → decode_mset_request payload ≢ panic
unfolding decode_mset_request
decode_mset-ne-panic payload =
    run-Safe _ payload (Safe-word 0 2 _ _ λ count. Safe-map 0 _ _ (read_pairs-Safe count _ _))

read_keys-Safe : (rounds : ℕ) (keys : List Bytes) → Safe 0 (read_keys rounds keys)
unfolding read_keys
read_keys-Safe zero keys = Safe-pure 0 _
read_keys-Safe (suc rounds) keys = Safe-string 0 2 _ _ _ λ _. read_keys-Safe rounds _

pub decode_mget-ne-panic : (op : ℕ) (payload : Bytes) → decode_mget_request op payload ≢ panic
unfolding decode_mget_request
decode_mget-ne-panic op payload =
    run-Safe _ payload (Safe-word 0 2 _ _ λ count. Safe-map 0 _ _ (read_keys-Safe count _))

read_values-Safe : (rounds : ℕ) (values : List Bytes) → Safe 0 (read_values rounds values)
unfolding read_values
read_values-Safe zero values = Safe-pure 0 _
read_values-Safe (suc rounds) values = Safe-string 0 4 _ _ _ λ _. read_values-Safe rounds _

pub decode_multi_value-ne-panic : (payload : Bytes) → decode_multi_value_response payload ≢ panic
unfolding decode_multi_value_response
decode_multi_value-ne-panic payload =
    run-Safe _ payload (Safe-word 0 2 _ _ λ count. Safe-map 0 _ _ (read_values-Safe count _))
