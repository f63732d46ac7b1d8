-- ===== src/Relay/Types.antt =====
-- Role.py, the enumerations of custom_types.py, `Transport` of v3xctrl_tcp/transport.py and the
-- address pairs of v3xctrl_helper. The values of an enumeration are the texts of the wire.
use v3xctrl.Base.{
  ℕ, String, ◌≡◌, ◌↔◌, Bool, true, false, ◌&&◌, Option, none, some, List, [], ◌∷◌, arith, PyEq,
  ◌==◌, if◌then◌else◌, string_eq, nat_eq,
}

-- `tuple[str, int]`
pub record Address : Type 0 where
  pub host : String
  pub port : ℕ

unfoldable pub same_address : Address → Address → Bool
same_address a b = a.host == b.host && a.port == b.port

pub same_address_iff : (a b : Address) → (same_address a b ≡ true) ↔ (a ≡ b)
unfolding same_address
same_address_iff a b = (
  (λ h. ground (arith, string_eq.same_iff a.host b.host, nat_eq.same_iff a.port b.port)),
  (λ h. ground (arith, string_eq.same_iff a.host b.host, nat_eq.same_iff a.port b.port)),
)

instance abbrev pub address_eq : PyEq Address
address_eq = record { same = same_address; same_iff = same_address_iff }

pub data Role : Type 0 where
  streamer viewer spectator : Role

-- `Role(text)`; `none` is the ValueError.
unfoldable pub parse_role : String → Option Role
parse_role text =
    if text == "streamer"
    then some streamer
    else if text == "viewer"
    then some viewer
    else if text == "spectator"
    then some spectator
    else none

pub data PortType : Type 0 where
  video control : PortType

abbrev pub same_port_type : PortType → PortType → Bool
same_port_type video video = true
same_port_type control control = true
same_port_type _ _ = false

pub same_port_type_iff : (a b : PortType) → (same_port_type a b ≡ true) ↔ (a ≡ b)
same_port_type_iff video video = ground arith
same_port_type_iff video control = ground arith
same_port_type_iff control video = ground arith
same_port_type_iff control control = ground arith

instance abbrev pub port_type_eq : PyEq PortType
port_type_eq = record { same = same_port_type; same_iff = same_port_type_iff }

-- `list(PortType)`
abbrev pub port_types : List PortType
port_types = video ∷ control ∷ []

-- `PortType(text)`; `none` is the ValueError.
unfoldable pub parse_port_type : String → Option PortType
parse_port_type text =
    if text == "video" then some video else if text == "control" then some control else none

pub data Transport : Type 0 where
  udp tcp : Transport
