-- ===== src/AlertQueue/Narrow.antt =====
-- Typing on in a filter of the table.
use attest.Prelude.{ℕ, String, ◌≡◌, refl, List, [], ◌∷◌, Bool, true, any, filter, arith}
use attest.Prelude.Text.{codes, includes, prefix_of}
use attest.Alerts.{Alert}
use attest.AlertQueue.{
  Column, confidence, percent, has_any, or_found, searched, read_by, alert_global_filter,
  column_filter,
}

prefix_of_trans :
    (q r s : List ℕ) → prefix_of q r ≡ true → prefix_of r s ≡ true → prefix_of q s ≡ true
prefix_of_trans [] r s a b = refl
prefix_of_trans (c ∷ q) [] s a b = absurd (ground arith)
prefix_of_trans (c ∷ q) (d ∷ r) [] a b = absurd (ground arith)
prefix_of_trans (c ∷ q) (d ∷ r) (e ∷ s) a b = ground (arith, prefix_of_trans q r s)

includes_in_prefix :
    (q r s : List ℕ) → includes q r ≡ true → prefix_of r s ≡ true → includes q s ≡ true
unfolding includes
includes_in_prefix q [] [] a b = a
includes_in_prefix q [] (e ∷ s) a b = ground (arith, prefix_of_trans q [] (e ∷ s))
includes_in_prefix q (d ∷ r) [] a b = absurd (ground arith)
includes_in_prefix q (d ∷ r) (e ∷ s) a b =
    ground (arith, prefix_of_trans q (d ∷ r) (e ∷ s), includes_in_prefix q r s)

includes_trans : (q r s : List ℕ) → includes q r ≡ true → includes r s ≡ true → includes q s ≡ true
unfolding includes
includes_trans q r [] a b = includes_in_prefix q r [] a b
includes_trans q r (e ∷ s) a b =
    ground (arith, includes_in_prefix q r (e ∷ s), includes_trans q r s)

filter-filter :
    (f g : Alert → Bool) (alerts : List Alert)
    → ((a : Alert) → f a ≡ true → g a ≡ true)
    → filter f alerts ≡ filter f (filter g alerts)
filter-filter f g [] h = refl
filter-filter f g (a ∷ rest) h = ground (arith, h a, filter-filter f g rest h)

module _ (to_lower : String → List ℕ) where
  has_any_narrow :
      (texts : List String) (q r : List ℕ)
      → includes q r ≡ true
      → any (λ v. includes r (to_lower v)) texts ≡ true
      → any (λ v. includes q (to_lower v)) texts ≡ true
  has_any_narrow [] q r i h = absurd (ground arith)
  has_any_narrow (v ∷ rest) q r i h =
      ground (arith, includes_trans q r (to_lower v), has_any_narrow rest q r)

  -- The query of a filter holds another one, as the filter compares them.
  abbrev pub Extends : Column → String → String → Type 0
  Extends confidence longer shorter = includes (codes shorter) (codes longer) ≡ true
  Extends _ longer shorter = includes (to_lower shorter) (to_lower longer) ≡ true

  module _ (absolute_time : String → String) where
    or_found_narrow :
        (texts : List String) (q r : List ℕ)
        → includes q r ≡ true
        → or_found to_lower absolute_time r (has_any to_lower absolute_time texts r) ≡ true
        → or_found to_lower absolute_time q (has_any to_lower absolute_time texts q) ≡ true
    unfolding includes
    or_found_narrow texts [] r i h = refl
    or_found_narrow texts (c ∷ q) [] i h = absurd (ground arith)
    or_found_narrow texts (c ∷ q) (d ∷ r) i h = has_any_narrow texts (c ∷ q) (d ∷ r) i h

    alert_global_filter_narrow :
        (longer shorter : String) (a : Alert)
        → includes (to_lower shorter) (to_lower longer) ≡ true
        → alert_global_filter to_lower absolute_time longer a ≡ true
        → alert_global_filter to_lower absolute_time shorter a ≡ true
    unfolding alert_global_filter
    alert_global_filter_narrow longer shorter a i h =
        or_found_narrow (searched to_lower absolute_time a) (to_lower shorter) (to_lower longer) i h

    -- A longer query in the search box finds its rows among those that the shorter one found.
    pub global_filter-narrows :
        (longer shorter : String) (alerts : List Alert)
        → includes (to_lower shorter) (to_lower longer) ≡ true
        → filter (alert_global_filter to_lower absolute_time longer) alerts
          ≡ filter
              (alert_global_filter to_lower absolute_time longer)
              (filter (alert_global_filter to_lower absolute_time shorter) alerts)
    global_filter-narrows longer shorter alerts i =
        filter-filter _ _ alerts (λ a. alert_global_filter_narrow longer shorter a i)

    column_filter_narrow :
        (column : Column) (longer shorter : String) (a : Alert)
        → Extends column longer shorter
        → column_filter to_lower absolute_time column longer a ≡ true
        → column_filter to_lower absolute_time column shorter a ≡ true
    unfolding column_filter
    column_filter_narrow confidence longer shorter a i h =
        includes_trans (codes shorter) (codes longer) (codes (percent a.confidence)) i h
    column_filter_narrow column longer shorter a i h =
        has_any_narrow (read_by to_lower absolute_time column a) (to_lower shorter)
          (to_lower longer) i h

    -- The same holds of the filter of every column.
    pub column_filter-narrows :
        (column : Column) (longer shorter : String) (alerts : List Alert)
        → Extends column longer shorter
        → filter (column_filter to_lower absolute_time column longer) alerts
          ≡ filter
              (column_filter to_lower absolute_time column longer)
              (filter (column_filter to_lower absolute_time column shorter) alerts)
    column_filter-narrows column longer shorter alerts i =
        filter-filter _ _ alerts (λ a. column_filter_narrow column longer shorter a i)
