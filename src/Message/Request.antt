-- ===== src/Message/Request.antt =====
-- What an operation says, with its pointers followed: the view by which operations and messages
-- are compared.
use keyless.Prelude.{
  ℕ, ◌%◌, ◌≡◌, Option, none, some, List, [], ◌∷◌, ◌++◌, Bool, true, false, ◌&&◌, ◌==◌, ◌<◌, length,
  if◌then◌else◌,
}
use keyless.Protocol.{Pointer, ski_size, digest_size, ◌>>=◌}
use keyless.Protocol.Tag
use keyless.Wire.{load}
use keyless.Wire.Encoding.{Tlv}
use keyless.Message.{Operation}

pub record Request : Type 0 where
  pub opcode : Option ℕ
  pub payload : Option (List ℕ)
  pub ski : Option (List ℕ)
  pub digest : Option (List ℕ)
  pub client_ip : Option (List ℕ)

-- The bytes of a field: its flag, its pointer and its length.
abbrev pub field : Bool → Pointer → ℕ → Option (Option (List ℕ))
field false p n = some none
field true p n = load p n >>= λ d. some (some d)

-- The operation's set fields hold what the request says; a set field can be read to its length.
pub record Shows (op : Operation) (r : Request) : Type 0 where
  pub opcode : r.opcode ≡ (if op.is_opcode_set then some op.opcode else none)
  pub payload : field op.is_payload_set op.payload op.payload_len ≡ some r.payload
  pub ski : field op.is_ski_set op.ski ski_size ≡ some r.ski
  pub digest : field op.is_digest_set op.digest digest_size ≡ some r.digest
  pub client_ip : field op.is_ip_set op.ip op.ip_len ≡ some r.client_ip

abbrev pub item_of : ℕ → Option (List ℕ) → List Tlv
item_of tag none = []
item_of tag (some d) = (tag, d) ∷ []

abbrev pub opcode_item : Option ℕ → List Tlv
opcode_item none = []
opcode_item (some v) = (Tag.opcode, v % 256 ∷ []) ∷ []

-- The items that a request is sent as, in their order.
abbrev pub items_of : Request → List Tlv
items_of r =
    opcode_item r.opcode
    ++ (item_of Tag.payload r.payload
        ++ (item_of Tag.ski r.ski
            ++ (item_of Tag.digest r.digest ++ item_of Tag.client_ip r.client_ip)))

abbrev pub no_request : Request
no_request = record { opcode = none; payload = none; ski = none; digest = none; client_ip = none }

-- What an item says: an opcode is one byte, a SKI 20 and a digest 32; an item of another length is
-- passed over, and so is one of another tag. A later item overrides an earlier one.
abbrev pub pick_opcode : Tlv → Option ℕ → Option ℕ
pick_opcode (t, v ∷ []) o = if t == Tag.opcode then some v else o
pick_opcode (t, _) o = o

abbrev pub pick : ℕ → Tlv → Option (List ℕ) → Option (List ℕ)
pick tag i o = if i.0 == tag then some i.1 else o

abbrev pub pick_sized : ℕ → ℕ → Tlv → Option (List ℕ) → Option (List ℕ)
pick_sized tag n i o = if length i.1 == n then pick tag i o else o

unfoldable pub apply : Tlv → Request → Request
apply i r = record {
  opcode = pick_opcode i r.opcode;
  payload = pick Tag.payload i r.payload;
  ski = pick_sized Tag.ski ski_size i r.ski;
  digest = pick_sized Tag.digest digest_size i r.digest;
  client_ip = pick Tag.client_ip i r.client_ip;
}

unfoldable pub request_of : List Tlv → Request → Request
request_of [] r = r
request_of (i ∷ is) r = request_of is (apply i r)

-- The length of an item's contents is a WORD.
abbrev pub Fits : Tlv → Type 0
Fits i = length i.1 < 65536

abbrev pub has {ℓ} : {A : Type ℓ} → Option A → Bool
has none = false
has (some a) = true

-- Whether a request has what a message must have.
abbrev pub is_complete : Request → Bool
is_complete r = has r.opcode && has r.payload
