-- ===== src/Engine/Compaction/Checkpoint.antt =====
-- The checkpoint that compaction keeps in the session's state. `S` is that state, and
-- `Environment` what the code calls outside of its files: the state, JSON, SHA-256 and the
-- summarizer. A decoded number that is not positive is 0.
pub mod Laws
use materialmind.Common.{
  ℕ, ◌≡◌, String, Bool, false, ◌&&◌, not, Option, none, some, List, [], ◌∷◌, ◌++◌, if◌then◌else◌,
  ltb, leb, ◌==◌, str_eq, length, take, drop, ◌>>=◌,
}
use materialmind.Common.Text.{trim_space}
use materialmind.Engine.Compaction.Contents.{Content, Contents, contents_with_context_summary}

pub record Checkpoint : Type 0 where
  pub version : ℕ
  pub prefix_content_count : ℕ
  pub prefix_digest : String
  pub summary : String

pub record UsageRecord : Type 0 where
  pub version : ℕ
  pub prompt_tokens : ℕ  -- int64
  pub contents_count : ℕ
  pub last_content_digest : String

-- What a read of the state gives: `other` is a value that is not a string.
pub data Got : Type 0 where
  missing unreadable other : Got
  text : String → Got

-- What a write to the state gives; a refused one says whether it was cancelled.
pub data Stored (S : Type 0) : Type 0 where
  stored : S → Stored S
  refused : Bool → Stored S

pub record Environment (S : Type 0) : Type 0 where
  pub get : S → String → Got
  pub set : S → String → String → Stored S
  pub encode_content : Option Content → Option (List ℕ)
  pub sha256_hex : List ℕ → String
  pub encode_checkpoint : Checkpoint → Option String
  pub decode_checkpoint : String → Option Checkpoint
  pub encode_usage : UsageRecord → Option String
  pub decode_usage : String → Option UsageRecord
  pub summarize : Contents → Option String

abbrev pub state_key : String
state_key = "_materialmind_context_compaction_v1"

abbrev pub usage_key : String
usage_key = "_materialmind_context_usage_v1"

pub data Loaded : Type 0 where
  absent load_failed : Loaded
  found : Checkpoint → Loaded

-- The end of `loadContextCompactionCheckpoint`, on the digest of the prefix.
abbrev pub check_digest : Checkpoint → Option String → Loaded
check_digest checkpoint none = Loaded.load_failed
check_digest checkpoint (some digest) =
    if str_eq digest checkpoint.prefix_digest then Loaded.found checkpoint else Loaded.absent

-- Whether a checkpoint can be one of contents of this number.
abbrev pub is_plausible : Checkpoint → ℕ → Bool
is_plausible checkpoint count =
    checkpoint.version == 1
    && ltb 0 checkpoint.prefix_content_count
    && leb checkpoint.prefix_content_count count
    && not (str_eq (trim_space checkpoint.summary) "")

module _ {S : Type 0} (env : Environment S) where
  -- What `contentDigest` writes to the hash.
  abbrev pub digest_input : Contents → Option (List ℕ)
  digest_input [] = some []
  digest_input (content ∷ contents) =
      env.encode_content content
      >>= (λ encoded. digest_input contents >>= (λ rest. some (encoded ++ 0 ∷ rest)))

  -- `contentDigest`
  abbrev pub content_digest : Contents → Option String
  content_digest contents = digest_input contents >>= (λ input. some (env.sha256_hex input))

  abbrev pub load_decoded : Contents → Option Checkpoint → Loaded
  load_decoded contents none = Loaded.absent
  load_decoded contents (some checkpoint) =
      if is_plausible checkpoint (length contents)
      then check_digest checkpoint (content_digest (take checkpoint.prefix_content_count contents))
      else Loaded.absent

  abbrev pub load_got : Contents → Got → Loaded
  load_got contents Got.missing = Loaded.absent
  load_got contents Got.unreadable = Loaded.load_failed
  load_got contents Got.other = Loaded.absent
  load_got contents (Got.text encoded) = load_decoded contents (env.decode_checkpoint encoded)

  -- `loadContextCompactionCheckpoint`
  unfoldable pub load_checkpoint : S → Contents → Loaded
  load_checkpoint state contents = load_got contents (env.get state state_key)

  -- `saveContextCompactionCheckpoint`
  abbrev pub save_encoded : S → Option String → Stored S
  save_encoded state none = Stored.refused false
  save_encoded state (some encoded) = env.set state state_key encoded

  unfoldable pub save_checkpoint : S → Checkpoint → Stored S
  save_checkpoint state checkpoint = save_encoded state (env.encode_checkpoint checkpoint)

  abbrev pub contents_after : Contents → Loaded → Contents
  contents_after contents Loaded.absent = contents
  contents_after contents Loaded.load_failed = contents
  contents_after contents (Loaded.found checkpoint) =
      contents_with_context_summary checkpoint.summary
        (drop checkpoint.prefix_content_count contents)

  -- `checkpointedContents`
  abbrev pub checkpointed_contents : S → Contents → Contents
  checkpointed_contents state contents = contents_after contents (load_checkpoint state contents)
