-- ===== src/Storage/Entry.antt =====
-- src/storage/frame.rs and src/storage/index.rs: what a log entry says, and what the index keeps of
-- it. A JSON value is a parameter type; reading one from bytes is `serde_json`.
use dewdb.Prelude.{
  ℕ, ◌+◌, ◌-◌, ◌*◌, ◌^◌, Bool, false, not, List, [], ◌∷◌, Bytes, bytes_eq, ltb, if◌then◌else◌, min,
  length, keep, Option, none, some,
}
use dewdb.Api.Precondition.{Version}
use dewdb.Consensus.Config.{Configuration}
use dewdb.Ring.Members.{HashRing}
use dewdb.Storage.Frame.{header_len}

pub record IndexEntry : Type 0 where
  pub wal_id : ℕ
  pub offset : ℕ
  pub len : ℕ
  pub inline : Option Bytes
  pub lsn : ℕ
  pub term : ℕ
  pub ts : ℕ
  pub expire_at : Option ℕ

unfoldable pub version : IndexEntry → Version
version e = record { term = e.term; lsn = e.lsn }

unfoldable pub frame_bytes : IndexEntry → ℕ
frame_bytes e = header_len + e.len

unfoldable pub inline_bytes : IndexEntry → ℕ
inline_bytes e = elim e.inline [ none ↦ 0 | some b ↦ length b ]

-- `saturating_add` and `saturating_mul` on 64-bit words.
unfoldable pub saturated : ℕ → ℕ
saturated n = min n (2 ^ 64 - 1)

unfoldable pub expires_at : IndexEntry → Option ℕ → Option ℕ
unfolding saturated
expires_at e ttl = elim e.expire_at [
  | some at ↦ some at
  | none ↦ (elim ttl [
    | none ↦ none
    | some secs ↦ if ltb 0 e.ts then some (saturated (e.ts + saturated (secs * 1000))) else none
  ])
]

pub record IndexSpec : Type 0 where
  pub name : Bytes
  pub field : Bytes

pub data IndexChange : Type 0 where
  create_index : IndexSpec → IndexChange
  drop_index : Bytes → IndexChange

-- The first definition of the name is replaced, or a new one goes behind.
unfoldable pub define : IndexSpec → List IndexSpec → List IndexSpec
define spec [] = spec ∷ []
define spec (s ∷ specs) = if bytes_eq s.name spec.name then spec ∷ specs else s ∷ define spec specs

unfoldable pub apply_to : IndexChange → List IndexSpec → List IndexSpec
unfolding define
apply_to (create_index spec) specs = define spec specs
apply_to (drop_index name) specs = keep (λ s. not (bytes_eq s.name name)) specs

pub record HandoverRecord : Type 0 where
  pub id : Bytes
  pub target : HashRing

pub data LogEntry (Value : Type 0) : Type 0 where
  log_put :
      (migration : Bool) (key : Bytes) (value : Value) (ts : ℕ) (expire_at : Option ℕ)
      → LogEntry Value
  log_del : (migration : Bool) (key : Bytes) (ts : ℕ) → LogEntry Value
  log_barrier log_drop : (ts : ℕ) → LogEntry Value
  log_config : Configuration → (ts : ℕ) → LogEntry Value
  log_handover : HandoverRecord → (ts : ℕ) → LogEntry Value
  log_index : IndexChange → (ts : ℕ) → LogEntry Value
  log_ttl : Option ℕ → (ts : ℕ) → LogEntry Value

unfoldable pub is_migration : {Value : Type 0} → LogEntry Value → Bool
is_migration (log_put migration key value ts expire_at) = migration
is_migration (log_del migration key ts) = migration
is_migration entry = false

-- What the storage takes from the libraries and from src/json.rs: JSON text and back, the member at
-- a path, the equality that `json_cmp` gives, and the checksum of a payload.
pub record Codec (Value : Type 0) : Type 0 where
  pub from_slice : Bytes → Option (LogEntry Value)
  pub to_vec : LogEntry Value → Bytes
  pub path_value : Value → Bytes → Option Value
  pub same_value : Value → Value → Bool
  pub crc32 : Bytes → ℕ
