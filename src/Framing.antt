-- ===== src/Framing.antt =====
-- `extractItemsModifyBuffer` of src/util/Utility.cpp and `TCPMetaInfo` of include/server/TCPServer.hpp:
-- the messages in the bytes that were received. A `TCPMetaInfo` takes 32 bytes: four 32-bit fields
-- and two 64-bit ones, in the byte order of the host, which is the low byte first. The scan for a
-- delimiter before the loop changes nothing, since the pointer is set back behind it, but where the
-- received bytes hold none it reads on behind them: `none` here.
pub mod Chunks
pub mod Frames
use db_query_optimizer.Common.{
  none, some, ◌||◌, Option, ◌==◌, ℕ, zero, suc, ◌+◌, ◌*◌, Bool, true, false, ◌&&◌, List, [], ◌∷◌,
  ◌++◌, length, take, drop, ltb, leb, if◌then◌else◌,
}
use db_query_optimizer.Common.Text.{Text}

-- The first four bytes as a `uint32_t`.
unfoldable pub uint32_at : Text → ℕ
uint32_at (a ∷ b ∷ c ∷ d ∷ s) = a + 256 * b + 65536 * c + 16777216 * d
uint32_at _ = 0

-- `info->payload_size`
unfoldable pub payload_size : Text → ℕ
unfolding uint32_at
payload_size buffer = uint32_at (drop 8 (take 32 buffer))

-- `info->package_type`
unfoldable pub package_type : Text → ℕ
unfolding uint32_at
package_type buffer = uint32_at (drop 12 (take 32 buffer))

-- One call of a callback: the meta info and the payload.
pub record Message : Type 0 where
  pub meta_info : Text
  pub payload : Text

-- What the callbacks were given, in order, and the bytes that stay in the buffer.
pub record Extraction : Type 0 where
  pub messages : List Message
  pub unprocessed : Text

-- The test of the loop. Fewer than 32 bytes fail it whatever lies behind them.
unfoldable pub has_message : Text → Bool
unfolding payload_size
has_message buffer = leb (payload_size buffer + 32) (length buffer) && ltb 0 (length buffer)

unfoldable pub message_of : Text → Message
unfolding payload_size
message_of buffer = record {
  meta_info = take 32 buffer;
  payload = take (payload_size buffer) (drop 32 buffer);
}

-- `data_ptr` behind the message.
unfoldable pub behind_message : Text → Text
unfolding payload_size
behind_message buffer = drop (payload_size buffer + 32) buffer

-- The loop: each round takes 32 bytes at least, so the length of the buffer is fuel enough.
unfoldable pub extract_loop : ℕ → Text → Extraction
unfolding has_message message_of behind_message
extract_loop zero buffer = record { messages = []; unprocessed = buffer }
extract_loop (suc fuel) buffer =
    let rest = extract_loop fuel (behind_message buffer) in
    if has_message buffer
    then record { messages = message_of buffer ∷ rest.messages; unprocessed = rest.unprocessed }
    else record { messages = []; unprocessed = buffer }

-- `TCP_START_DELIM`
abbrev pub start_delimiter : ℕ
start_delimiter = 1524304817

-- The scan: some four received bytes in a row are the delimiter. Fewer than four give zero, which is not it.
unfoldable pub finds_delimiter : Text → Bool
unfolding uint32_at
finds_delimiter [] = false
finds_delimiter (c ∷ s) = (uint32_at (c ∷ s) == start_delimiter) || finds_delimiter s

-- `extractItemsModifyBuffer`: `none` where the scan leaves the received bytes.
unfoldable pub extract_items : Text → Option Extraction
unfolding extract_loop finds_delimiter
extract_items buffer =
    if finds_delimiter buffer then some (extract_loop (length buffer) buffer) else none
