-- ===== src/Sorter/Clusters.antt =====
-- internal/sorter/sorter.go: the order of weighted clusters.
use sesame.Common.{
  ==_iff, ==_refl, nat_eq, string_eq, Bytes, bytes_eq, ℕ, ◌≡◌, ◌⊎◌, Bool, true, false, arith,
}
use sesame.Common.Order.{
  strings_compare_refl, eq_of_strings_compare, strings_compare-flip, strings_compare_trans,
}
use sesame.Sorter.{weighted_cluster_less}

-- What sort.Stable needs of a Less that tells any two different elements apart.
pub record IsStrictTotal {A : Type 0} (less : A → A → Bool) : Type 0 where
  pub irreflexive : (a : A) → less a a ≡ false
  pub transitive : (a b c : A) → less a b ≡ true → less b c ≡ true → less a c ≡ true
  pub total : (a b : A) → (a ≡ b) ⊎ (less a b ≡ true) ⊎ (less b a ≡ true)

weighted_transitive :
    (a b c : Bytes × ℕ)
    → weighted_cluster_less a b ≡ true
    → weighted_cluster_less b c ≡ true
    → weighted_cluster_less a c ≡ true
unfolding weighted_cluster_less
weighted_transitive (n, w) (m, v) (k, u) h i = ground (
  arith,
  ==_iff n m,
  ==_iff m k,
  ==_iff n k,
  strings_compare_trans n m k,
  strings_compare-flip n m,
  strings_compare-flip m k,
  strings_compare_refl n,
)

weighted_total :
    (a b : Bytes × ℕ)
    → (a ≡ b) ⊎ (weighted_cluster_less a b ≡ true) ⊎ (weighted_cluster_less b a ≡ true)
unfolding weighted_cluster_less
weighted_total (n, w) (m, v) =
    ground (arith, ==_iff n m, ==_iff m n, strings_compare-flip n m, eq_of_strings_compare n m)

-- The order of weighted clusters, by name and then by weight, is a strict total order.
pub weighted_cluster_less-IsStrictTotal : IsStrictTotal weighted_cluster_less
unfolding weighted_cluster_less
weighted_cluster_less-IsStrictTotal = record {
  irreflexive = λ (n, w). ground (arith, ==_refl n);
  transitive = weighted_transitive;
  total = weighted_total;
}
