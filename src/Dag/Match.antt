-- ===== src/Dag/Match.antt =====
-- internal/dag/dag.go: the match conditions of a route of the graph.
use sesame.Common.{nat_eq, string_eq, Bytes, bytes_eq, Bool}

pub data HeaderMatchType : Type 0 where
  exact contains present regex : HeaderMatchType

pub record HeaderMatchCondition : Type 0 where
  pub name : Bytes
  pub value : Bytes
  pub match_type : HeaderMatchType
  pub invert : Bool

-- PrefixMatchString (the zero value) and PrefixMatchSegment
pub data PrefixMatchType : Type 0 where
  string segment : PrefixMatchType

-- the implementations of the interface MatchCondition for paths
pub data PathMatchCondition : Type 0 where
  prefix : Bytes → PrefixMatchType → PathMatchCondition
  regex : Bytes → PathMatchCondition
  exact : Bytes → PathMatchCondition
