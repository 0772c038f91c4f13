-- ===== src/RedisStream/Messages.antt =====
-- The messages of redis/stream_client.py and the parts of its methods that work on them: what
-- `read_from` and `autoclaim` make of Redis' answers, and a dead letter.
use wealthfinder.Prelude.{ℕ, List, [], ◌∷◌, ◌++◌, map, Text}
use wealthfinder.Prelude.Result.{Result, ok, raise, other, ◌>>=◌}
use wealthfinder.Models.EventType.{codes}

pub record StreamMessage : Type 0 where
  pub id : ℕ
  pub fields : List (Text × Text)

-- A message that `read_from` or `autoclaim` returns: a ReclaimedMessage has how often it was delivered.
pub data Message : Type 0 where
  first_delivery : StreamMessage → Message
  reclaimed : StreamMessage → ℕ → Message

abbrev pub content : Message → StreamMessage
content (first_delivery message) = message
content (reclaimed message n) = message

abbrev pub delivery_count : Message → ℕ
delivery_count (first_delivery message) = 1
delivery_count (reclaimed message n) = n

-- the entry that `dead_letter` publishes; json.dumps() of the fields keeps them as they are
pub record DeadLetter : Type 0 where
  pub message_id : ℕ
  pub fields : List (Text × Text)
  pub delivery_count : ℕ
  pub failed_at : ℕ
  pub v : Text

unfoldable pub dead_letter_entry : Message → ℕ → DeadLetter
dead_letter_entry message now = record {
  message_id = (content message).id;
  fields = (content message).fields;
  delivery_count = delivery_count message;
  failed_at = now;
  v = codes "1";
}

-- `read_from`: the entries of every stream in the response
unfoldable pub read_entries : List (Text × List (ℕ × List (Text × Text))) → List StreamMessage
read_entries [] = []
read_entries ((stream, entries) ∷ response) =
    map (λ (e : ℕ × List (Text × Text)). record { id = e.0; fields = e.1 }) entries
    ++ read_entries response

-- A message that has no pending entry was acknowledged since the claim.
abbrev claimed_message : StreamMessage → List ℕ → List Message → List Message
claimed_message message [] rest = rest
claimed_message message (times_delivered ∷ counts) rest = reclaimed message times_delivered ∷ rest

-- `autoclaim`: the claimed entries, each zipped with the delivery counts that `xpending_range` has
-- for its id; `strict=True` raises a ValueError if the lists differ in length.
unfoldable pub claim_entries : List StreamMessage → List (List ℕ) → Result (List Message)
claim_entries [] [] = ok []
claim_entries [] (counts ∷ pending) = raise other
claim_entries (message ∷ claimed) [] = raise other
claim_entries (message ∷ claimed) (counts ∷ pending) = do
  rest ← claim_entries claimed pending
  ok (claimed_message message counts rest)
