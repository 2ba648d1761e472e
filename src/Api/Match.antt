-- ===== src/Api/Match.antt =====
-- apis/projectsesame/v1/httpproxy.go: the match conditions of includes and routes.
use sesame.Common.{
  Comparable, ◌==◌, nat_eq, string_eq, list_beq, list_beq_iff, Bytes, bytes_eq, ◌≡◌, ◌↔◌, Bool,
  true, false, not, ◌&&◌, Option, [], arith,
}

pub record HeaderMatchCondition : Type 0 where
  pub name : Bytes
  pub present : Bool
  pub notpresent : Bool
  pub contains : Bytes
  pub notcontains : Bytes
  pub exact : Bytes
  pub notexact : Bytes

pub record MatchCondition : Type 0 where
  pub prefix : Bytes
  pub header : Option HeaderMatchCondition

-- HeaderMatchCondition{Name: name}, with the zero value in every other field
abbrev pub named : Bytes → HeaderMatchCondition
named n = record {
  name = n;
  present = false;
  notpresent = false;
  contains = [];
  notcontains = [];
  exact = [];
  notexact = [];
}

-- Go's `==` on the struct.
abbrev bool_beq : Bool → Bool → Bool
bool_beq true b = b
bool_beq false b = not b

unfoldable pub header_beq : HeaderMatchCondition → HeaderMatchCondition → Bool
unfolding list_beq
header_beq a b =
    a.name == b.name
    && (bool_beq a.present b.present
        && (bool_beq a.notpresent b.notpresent
            && (a.contains == b.contains
                && (a.notcontains == b.notcontains
                    && (a.exact == b.exact && a.notexact == b.notexact)))))

pub header_beq_iff : (a b : HeaderMatchCondition) → (header_beq a b ≡ true) ↔ (a ≡ b)
unfolding header_beq
header_beq_iff a b = ground (
  arith,
  list_beq_iff a.name b.name,
  list_beq_iff a.contains b.contains,
  list_beq_iff a.notcontains b.notcontains,
  list_beq_iff a.exact b.exact,
  list_beq_iff a.notexact b.notexact,
)

instance abbrev pub header_eq : Comparable HeaderMatchCondition
header_eq = record { eqb = header_beq; eqb_iff = header_beq_iff }
