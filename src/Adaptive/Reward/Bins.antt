-- ===== src/Adaptive/Reward/Bins.antt =====
-- Membership in the sets of bins of reward_engine.py.
use riscv_pipeline_research.Base.{◌≡◌, refl, ap, arith, true, not, ◌&&◌, ◌||◌, List, [], ◌∷◌}
use riscv_pipeline_research.Adaptive.Templates.{Distance}
use riscv_pipeline_research.Adaptive.Reward.{
  IntentBin, distance_code, same_bin, has_bin, add_bin, difference, intersection,
}

distance_code-injective : (a b : Distance) → distance_code a ≡ distance_code b → a ≡ b
distance_code-injective Distance.d1 Distance.d1 h = refl
distance_code-injective Distance.d2 Distance.d2 h = refl
distance_code-injective Distance.d1_d2 Distance.d1_d2 h = refl
distance_code-injective Distance.d1 Distance.d2 h = absurd (omega (arith, h))
distance_code-injective Distance.d1 Distance.d1_d2 h = absurd (omega (arith, h))
distance_code-injective Distance.d2 Distance.d1 h = absurd (omega (arith, h))
distance_code-injective Distance.d2 Distance.d1_d2 h = absurd (omega (arith, h))
distance_code-injective Distance.d1_d2 Distance.d1 h = absurd (omega (arith, h))
distance_code-injective Distance.d1_d2 Distance.d2 h = absurd (omega (arith, h))

same_bin-eq : (a b : IntentBin) → same_bin a b ≡ true → a ≡ b
unfolding same_bin
same_bin-eq a b h = λ i. record { distance = distances i; register = registers i }
  where
    distances : a.distance ≡ b.distance
    distances = distance_code-injective a.distance b.distance (ground (arith, h))

    registers : a.register ≡ b.register
    registers = ground (arith, h)

pub has_bin-same :
    (bins : List IntentBin) (a b : IntentBin)
    → same_bin a b ≡ true
    → has_bin bins a ≡ has_bin bins b
has_bin-same bins a b h = ap (has_bin bins) (same_bin-eq a b h)

pub has_bin-add_bin :
    (b c : IntentBin) (bins : List IntentBin)
    → has_bin (add_bin b bins) c ≡ (same_bin b c || has_bin bins c)
has_bin-add_bin b c bins = ground (arith, has_bin-same bins b c)

pub has_bin-difference :
    (xs ys : List IntentBin) (c : IntentBin)
    → has_bin (difference xs ys) c ≡ (has_bin xs c && not (has_bin ys c))
has_bin-difference [] ys c = refl
has_bin-difference (x ∷ xs) ys c = ground (arith, has_bin-difference xs ys c, has_bin-same ys x c)

pub has_bin-intersection :
    (xs ys : List IntentBin) (c : IntentBin)
    → has_bin (intersection xs ys) c ≡ (has_bin xs c && has_bin ys c)
has_bin-intersection [] ys c = refl
has_bin-intersection (x ∷ xs) ys c =
    ground (arith, has_bin-intersection xs ys c, has_bin-same ys x c)
