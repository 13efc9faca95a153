-- ===== src/Dns.antt =====
-- The DNS messages of the crate hickory_proto, as far as the program reads and writes them. The
-- types that it only passes on are fields of `Hickory`, and so are the crate's functions.
use dnsproxy_rs.Prelude.{ℕ, Bool, List, Option}

pub record Hickory : Type 1 where
  -- domain names, record data, and the parts of a message that the program does not look at
  pub Name : Type 0
  pub Data : Type 0
  pub Rest : Type 0
  -- `==` on names, and `Name::eq_ignore_root`
  pub name_eq : Name → Name → Bool
  pub eq_ignore_root : Name → Name → Bool

-- `hickory_proto::op::Query`; types and classes by their numbers.
pub record Query (h : Hickory) : Type 0 where
  pub name : h.Name
  pub query_type : ℕ
  pub query_class : ℕ

-- `hickory_proto::rr::Record`
pub record Record (h : Hickory) : Type 0 where
  pub name : h.Name
  pub record_type : ℕ
  pub ttl : ℕ
  pub rdata : h.Data

-- `hickory_proto::op::Message`. `edns` is the flag `dnssec_ok` of the EDNS part, if there is one.
pub record Message (h : Hickory) : Type 0 where
  pub id : ℕ
  pub checking_disabled : Bool
  pub truncation : Bool
  pub rest : h.Rest
  pub queries : List (Query h)
  pub edns : Option Bool
  pub answers : List (Record h)
  pub authorities : List (Record h)
  pub additionals : List (Record h)

-- `RecordType::OPT`
abbrev pub opt : ℕ
opt = 41

-- The wire format: `to_bytes`, `from_bytes` and `truncate` of a message.
pub record Codec (h : Hickory) : Type 0 where
  pub to_bytes : Message h → Option (List ℕ)
  pub from_bytes : List ℕ → Option (Message h)
  pub truncate : Message h → Message h
