-- ===== src/Karma/History.antt =====
-- The generations of the chain followed, and the files they are kept in: `ChainHistory` of
-- src/libranet/karma/history.py. Ids and hashes are numbers, since they are only compared.
pub mod Known
pub mod Replaced
pub mod Stored
pub mod Cut
use libranet.Base.{
  ℕ, zero, suc, ◌+◌, ◌-◌, ◌≡◌, ◌↔◌, Bool, true, false, ◌&&◌, Option, none, some, List, [], ◌∷◌,
  ◌++◌, arith, leb, ◌==◌, if◌then◌else◌, nat_eq, Eq, length, take, drop, guard, ◌>>=◌, ◌>>◌,
  value_error, Result, ok,
}
use libranet.Base.Dict.{Dict, lookup, insert, set_default, delete}
use libranet.Karma.Weight.{after, ChainWeight, StakeBaseline}

-- `TransactionKey` of src/libranet/protocol/karma_transactions.py
pub record TransactionKey : Type 0 where
  pub sender : ℕ
  pub created : ℕ

abbrev pub key_beq : TransactionKey → TransactionKey → Bool
key_beq a b = a.sender == b.sender && a.created == b.created

pub key_beq_iff : (a b : TransactionKey) → (key_beq a b ≡ true) ↔ (a ≡ b)
key_beq_iff a b = ground arith

instance abbrev pub key_eq : Eq TransactionKey
key_eq = record { beq = key_beq; beq_iff = key_beq_iff }

-- `ChainGeneration`
pub record ChainGeneration : Type 0 where
  pub generation : ℕ
  pub validation : ℕ
  pub transaction : ℕ
  pub weight : ChainWeight
  pub keys_held : List TransactionKey
  pub witnesses : List ℕ
  pub stake_baseline : StakeBaseline

-- `ChainHistory`, without its directory
pub record ChainHistory : Type 0 where
  pub generations : List ChainGeneration
  pub known_keys : Dict TransactionKey ℕ
  pub known_witnesses : Dict ℕ ℕ

abbrev pub empty_history : ChainHistory
empty_history = record { generations = []; known_keys = []; known_witnesses = [] }

module _ {K : Type 0} ⦃e : Eq K⦄ where
  -- Each of `ks` is known by `generation`, unless it was by an earlier one.
  unfoldable pub know : List K → ℕ → Dict K ℕ → Dict K ℕ
  know [] generation known = known
  know (k ∷ ks) generation known = know ks generation (set_default k generation known)

  -- None of `ks` is known by `generation`.
  unfoldable pub unknow : List K → ℕ → Dict K ℕ → Dict K ℕ
  unknow [] generation known = known
  unknow (k ∷ ks) generation known = unknow ks generation (elim (lookup k known) [
    | none ↦ known
    | some g ↦ if g == generation then delete k known else known
  ])

-- `_extend`
unfoldable pub extend : List ChainGeneration → ChainHistory → ChainHistory
unfolding know
extend [] h = h
extend (g ∷ gs) h = extend gs (record {
  generations = h.generations ++ (g ∷ []);
  known_keys = know g.keys_held g.generation h.known_keys;
  known_witnesses = know g.witnesses g.generation h.known_witnesses;
})

-- The loop of `_forget`
unfoldable pub forget_each : List ChainGeneration → ChainHistory → ChainHistory
unfolding unknow
forget_each [] h = h
forget_each (g ∷ gs) h = forget_each gs (record {
  generations = h.generations;
  known_keys = unknow g.keys_held g.generation h.known_keys;
  known_witnesses = unknow g.witnesses g.generation h.known_witnesses;
})

-- `_forget`
unfoldable pub forget_from : ℕ → ChainHistory → ChainHistory
unfolding forget_each
forget_from first h =
    let kept : ChainHistory = forget_each (drop first h.generations) h in
    record kept { generations = take first h.generations }

-- `head`
abbrev pub last_of : {A : Type 0} → Option A → List A → Option A
last_of before [] = before
last_of before (x ∷ xs) = last_of (some x) xs

unfoldable pub head : ChainHistory → Option ChainGeneration
head h = last_of none h.generations

-- `has_key`
unfoldable pub has_key : TransactionKey → ℕ → ℕ → ChainHistory → Bool
has_key key first last h = elim (lookup key h.known_keys) [
  | none ↦ false
  | some g ↦ leb first g && leb g last
]

-- `witnessed`
unfoldable pub witnessed_in : ℕ → ChainHistory → Option ℕ
witnessed_in hash h = lookup hash h.known_witnesses

-- A change to the files of a history, each made whole.
pub data Write : Type 0 where
  write_generation : ChainGeneration → Write
  write_genealogy : List ℕ → Write
  write_head : Option ChainGeneration → Write
  delete_generation : ℕ → Write

-- That each generation of a replacement follows the one before, the first numbered `after`.
unfoldable pub follow : List ChainGeneration → ℕ → Bool
follow [] after = true
follow (g ∷ gs) after = g.generation == after && follow gs (after + 1)

abbrev pub validations : List ChainGeneration → List ℕ
validations [] = []
validations (g ∷ gs) = g.validation ∷ validations gs

abbrev pub write_each : List ChainGeneration → List Write
write_each [] = []
write_each (g ∷ gs) = write_generation g ∷ write_each gs

-- `range(from, from + count)`, of the generations deleted
abbrev pub delete_each : ℕ → ℕ → List Write
delete_each from zero = []
delete_each from (suc count) = delete_generation from ∷ delete_each (from + 1) count

-- `replace`, of the generations `g ∷ gs`, as none raises: the history then, and the files as it changes them, in
-- order.
unfoldable pub replace :
    ChainGeneration → List ChainGeneration → ChainHistory → Result (ChainHistory × List Write)
unfolding follow forget_from extend head
replace g gs h = do
  guard (leb g.generation (length h.generations)) value_error
  guard (follow (g ∷ gs) g.generation) value_error
  let next : ChainHistory = extend (g ∷ gs) (forget_from g.generation h)
  ok (
    next,
    write_each (g ∷ gs)
        ++ (write_genealogy (validations (take g.generation h.generations ++ (g ∷ gs)))
            ∷ write_head (head next)
            ∷ delete_each (length next.generations)
                (length h.generations - length next.generations)),
  )

-- `add`
unfoldable pub add_generation : ChainGeneration → ChainHistory → Result (ChainHistory × List Write)
unfolding replace
add_generation g h = do guard (g.generation == length h.generations) value_error; replace g [] h

-- The files of a history: each generation's that can be read, the lines of the genealogy, `none` for
-- one that names no id, and the head.
pub record Files : Type 0 where
  pub stored : Dict ℕ ChainGeneration
  pub genealogy : List (Option ℕ)
  pub head_file : Option ChainGeneration

abbrev pub lines_of : List ℕ → List (Option ℕ)
lines_of [] = []
lines_of (v ∷ vs) = some v ∷ lines_of vs

unfoldable pub write : Write → Files → Files
write (write_generation g) f = record f { stored = insert g.generation g f.stored }
write (write_genealogy vs) f = record f { genealogy = lines_of vs }
write (write_head g) f = record f { head_file = g }
write (delete_generation n) f = record f { stored = delete n f.stored }

unfoldable pub write_all : List Write → Files → Files
unfolding write
write_all [] f = f
write_all (w ∷ ws) f = write_all ws (write w f)

-- `_agreeing`; a generation's file does not say its number, which is that of its name.
unfoldable pub agreeing : ℕ → Option ℕ → Files → Option ChainGeneration
agreeing generation none f = none
agreeing generation (some validation) f = elim (lookup generation f.stored) [
  | none ↦ none
  | some g ↦
      if g.validation == validation then some (record g { generation = generation }) else none
]

-- The loop of `open`: the generations that agree, up to the first that does not, and whether one did
-- not.
unfoldable pub read_agreeing : ℕ → List (Option ℕ) → Files → List ChainGeneration × Bool
unfolding agreeing
read_agreeing generation [] f = ([], true)
read_agreeing generation (line ∷ lines) f = elim (agreeing generation line f) [
  | none ↦ ([], false)
  | some g ↦ let (gs, all) = read_agreeing (generation + 1) lines f in (g ∷ gs, all)
]

-- `open`: the history, and the files as it leaves them
unfoldable pub open_history : Files → ChainHistory × Files
unfolding read_agreeing extend head write_all
open_history f =
    let (gs, all) = read_agreeing 0 f.genealogy f in
    let h : ChainHistory = extend gs empty_history in
    (
      h,
      write_all
          (if all
            then write_head (head h) ∷ []
            else write_genealogy (validations h.generations) ∷ write_head (head h) ∷ [])
          f,
    )
