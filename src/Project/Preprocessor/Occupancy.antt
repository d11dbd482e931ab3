-- ===== src/Project/Preprocessor/Occupancy.antt =====
-- The slots of preprocessor::definitions that hold a name.
use server_engine_v.Common.{
  ℕ, zero, suc, ◌+◌, ◌<◌, ◌≡◌, refl, ap, arith, List, [], ◌∷◌, length, get_or, set,
}
use server_engine_v.Project.Preprocessor.{DefineSlot, vacant, name_of, clear_all}
use server_engine_v.Project.Probing
use server_engine_v.Project.Probing.Occupancy.{weight}
use server_engine_v.Project.Probing.Slots.{HasRoom}

abbrev pub occupied : List DefineSlot → ℕ
occupied t = Probing.Occupancy.occupied name_of t

-- a slot that the table holds
abbrev pub Has : List DefineSlot → DefineSlot → Type 0
Has t slot = (i : ℕ) × (get_or t i vacant ≡ slot)

pub occupied-set :
    (t : List DefineSlot) (i : ℕ) (slot : DefineSlot)
    → i < length t
    → occupied (set t i slot) + weight name_of (get_or t i vacant)
      ≡ occupied t + weight name_of slot
occupied-set = Probing.Occupancy.occupied-set vacant name_of refl

pub occupied-HasRoom : (t : List DefineSlot) → occupied t < length t → HasRoom vacant name_of t
occupied-HasRoom = Probing.Occupancy.occupied-HasRoom vacant name_of refl

pub occupied-clear_all : (t : List DefineSlot) → occupied (clear_all t) ≡ 0
unfolding clear_all
occupied-clear_all [] = refl
occupied-clear_all (x ∷ t) = omega (arith, occupied-clear_all t)

pub length-clear_all : (t : List DefineSlot) → length (clear_all t) ≡ length t
unfolding clear_all
length-clear_all [] = refl
length-clear_all (x ∷ t) = ap suc (length-clear_all t)

pub clear_all-vacant : (t : List DefineSlot) (i : ℕ) → get_or (clear_all t) i vacant ≡ vacant
unfolding clear_all
clear_all-vacant [] i = refl
clear_all-vacant (x ∷ t) zero = refl
clear_all-vacant (x ∷ t) (suc i) = clear_all-vacant t i
