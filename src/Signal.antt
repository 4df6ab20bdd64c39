-- ===== src/Signal.antt =====
-- src/wake_signal.c and src/wake_signal.h: signed observations that travel from node to node.
pub mod Travel
use libwake.Common.{
  ℕ, ◌+◌, ◌-◌, ◌%◌, ◌^◌, Bool, true, false, ◌&&◌, not, List, [], ◌∷◌, ◌++◌, ◌==◌, leb,
  if◌then◌else◌, u8, u32,
}
use Prim.Native.String.{String}
use libwake.Entity.Types.{Entity}
use libwake.Entity.Init.{le_bytes}
use libwake.Entity.Ops.{image, valid}
use libwake.Crypto
use libwake.Crypto.{Cipher, NodeKey, sign}

abbrev pub version_number : ℕ
version_number = 1

abbrev pub magic_number : ℕ
magic_number = 0x574B

-- WAKE_SIG__COUNT and WAKE_SCOPE__COUNT
abbrev pub type_count : ℕ
type_count = 4

abbrev pub scope_count : ℕ
scope_count = 2

-- wake_signal_meta_t; the three bytes of padding are signed with the rest
pub record Meta : Type 0 where
  pub magic : ℕ
  pub version : ℕ
  pub signal_type : ℕ
  pub scope : ℕ
  pub ttl : ℕ
  pub hop_count : ℕ
  pub action : ℕ
  pub outcome : ℕ
  pub pad0 : List ℕ
  pub phase_flags : ℕ
  pub tenant_id : ℕ
  pub timestamp : ℕ
  pub confidence : ℕ
  pub hit_count : ℕ
  pub node_id : List ℕ

-- wake_signal_t
pub record Signal : Type 0 where
  pub entity : Entity
  pub meta : Meta
  pub sig : List ℕ

-- the 64 bytes of the metadata, and the 128 bytes that are signed
pub meta_image : Meta → List ℕ
meta_image t =
    le_bytes 2 t.magic
    ++ (t.version ∷ t.signal_type ∷ t.scope ∷ t.ttl ∷ t.hop_count ∷ t.action ∷ t.outcome ∷ t.pad0)
    ++ le_bytes 4 t.phase_flags
    ++ le_bytes 4 t.tenant_id
    ++ le_bytes 4 t.timestamp
    ++ le_bytes 4 t.confidence
    ++ le_bytes 4 t.hit_count
    ++ t.node_id

pub signed_bytes : Entity → Meta → List ℕ
signed_bytes e t = image e ++ meta_image t

-- What the caller of wake_signal_init gives.
pub record Content : Type 0 where
  pub entity : Entity
  pub signal_type : ℕ
  pub scope : ℕ
  pub action : ℕ
  pub outcome : ℕ
  pub tenant_id : ℕ
  pub confidence : ℕ
  pub hit_count : ℕ
  pub ttl : ℕ
  pub phase_flags : ℕ

-- a state with its signature made anew
abbrev pub resigned : Cipher → Entity → Meta → NodeKey → Signal
resigned m e t key = record { entity = e; meta = t; sig = sign m (signed_bytes e t) key }

module _ (m : Cipher) where
  -- `seconds` is what the clock says
  unfoldable pub init : Content → ℕ → NodeKey → Signal
  init c seconds key =
      resigned m c.entity
        (record {
          magic = magic_number;
          version = version_number;
          signal_type = u8 c.signal_type;
          scope = u8 c.scope;
          ttl = c.ttl;
          hop_count = 0;
          action = u8 c.action;
          outcome = u8 c.outcome;
          pad0 = 0 ∷ 0 ∷ 0 ∷ [];
          phase_flags = c.phase_flags;
          tenant_id = c.tenant_id;
          timestamp = u32 seconds;
          confidence = c.confidence;
          hit_count = c.hit_count;
          node_id = key.public_key;
        })
        key

  unfoldable pub verify : Signal → Bool
  verify s =
      if not (s.meta.magic == magic_number)
      then false
      else if not (s.meta.version == version_number)
      then false
      else if leb type_count s.meta.signal_type
      then false
      else if leb scope_count s.meta.scope
      then false
      else if not (valid s.entity)
      then false
      else if not (Crypto.verify m s.sig (signed_bytes s.entity s.meta) s.meta.node_id)
      then false
      else true

  unfoldable pub forward : Signal → NodeKey → Bool × Signal
  forward s key = if s.meta.ttl == 0 then (false, s) else (
    true,
    resigned m s.entity
        (record s.meta {
          ttl = s.meta.ttl - 1;
          hop_count = u8 (s.meta.hop_count + 1);
          node_id = key.public_key;
        })
        key,
  )

unfoldable pub type_name : ℕ → String
type_name t =
    if t == 0
    then "OBSERVATION"
    else if t == 1
    then "REINFORCE"
    else if t == 2
    then "ALERT"
    else if t == 3
    then "RETRACT"
    else "UNKNOWN_SIGNAL_TYPE"

unfoldable pub scope_name : ℕ → String
scope_name s = if s == 0 then "TENANT" else if s == 1 then "FLEET" else "UNKNOWN_SCOPE"
