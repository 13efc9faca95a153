-- ===== src/Tests.antt =====
-- Concrete instances of the interfaces, and each theorem that has hypotheses at a concrete input.
mod Cached
mod Routed
mod Framed
mod Addressed
mod Resolved
mod Sealed
mod Served
mod Networked
mod Asked
mod Listened
mod Proxied
use dnsproxy_rs.Prelude.{ℕ, zero, suc, false, List, [], ◌∷◌, Option, none, some, length}
use dnsproxy_rs.Prelude.Text.{Text, codes, text_eq}
use dnsproxy_rs.Dns.{Hickory, Query, Record, Message, Codec}

-- names are texts
abbrev pub names : Hickory
names = record {
  Name = Text;
  Data = ℕ;
  Rest = Unit {0};
  name_eq = text_eq;
  eq_ignore_root = text_eq;
}

-- type A, class IN
abbrev pub question : Query names
question = record { name = codes "www.example.com"; query_type = 1; query_class = 1 }

abbrev pub address : ℕ → Record names
address ttl = record { name = codes "www.example.com"; record_type = 1; ttl = ttl; rdata = 7 }

abbrev pub request : ℕ → Message names
request id = record {
  id = id;
  checking_disabled = false;
  truncation = false;
  rest = tt;
  queries = question ∷ [];
  edns = none;
  answers = [];
  authorities = [];
  additionals = [];
}

abbrev pub reply : ℕ → Message names
reply id = record (request id) { answers = address 300 ∷ address 60 ∷ [] }

-- a codec for two messages
abbrev decoded : List ℕ → Option (Message names)
decoded [] = none
decoded (zero ∷ bytes) = some (request 0)
decoded (suc n ∷ bytes) = some (reply 0)

abbrev pub two_messages : Codec names
two_messages = record {
  to_bytes = λ m. some (length m.answers ∷ []);
  from_bytes = decoded;
  truncate = λ m. m;
}
