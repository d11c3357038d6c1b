-- ===== src/Resources/Ledger.antt =====
-- The resources that are held behind some calls, and tests of every choice of what is granted.
use edgesync_espidf.Prelude.{
  ℕ, zero, suc, length, ◌≡◌, refl, Bool, true, false, ◌&&◌, ◌||◌, List, [], ◌∷◌, ◌++◌, ◌==◌,
  if◌then◌else◌,
}
use edgesync_espidf.Types.{EspErr}
use edgesync_espidf.Queue.{is_ok}
use edgesync_espidf.Resources.{Resource, Step}

abbrev pub number : Resource → ℕ
number Resource.context = 0
number Resource.index = 1
number Resource.write_scratch = 2
number Resource.verify_scratch = 3
number Resource.claim_scratch = 4
number Resource.scratch = 5
number Resource.slot_used = 6
number Resource.lock = 7
number Resource.stopped_sem = 8
number Resource.task = 9
number Resource.wake_cb = 10
number Resource.signal = 11
number Resource.nvs_handle = 12
number Resource.client = 13
number Resource.ack_queue = 14

abbrev pub same : Resource → Resource → Bool
same r s = number r == number s

abbrev pub held : Resource → List Resource → Bool
held r [] = false
held r (s ∷ ss) = same r s || held r ss

abbrev pub drop_one : Resource → List Resource → List Resource
drop_one r [] = []
drop_one r (s ∷ ss) = if same r s then ss else s ∷ drop_one r ss

-- What some calls end in: resources that are held, a wait that does not end, or a use of what is not there.
pub data Ending : Type 0 where
  holding : List Resource → Ending
  blocked faulty : Ending

-- A resource is named in its part's block, so that the block is there when another one is given back, but for
-- the task, which ends by itself.
abbrev pub can_give_back : Resource → List Resource → Bool
can_give_back r rs = held r rs && (held Resource.context rs || same r Resource.task)

abbrev pub step : Step → List Resource → Ending
step (Step.takes r) rs = if held r rs then faulty else holding (r ∷ rs)
step (Step.gives_back r) rs = if can_give_back r rs then holding (drop_one r rs) else faulty
step (Step.uses r) rs = if held r rs then holding rs else faulty
step (Step.awaits r) rs = if held r rs then holding (drop_one r rs) else blocked
step Step.requests_stop rs = if held Resource.context rs then holding rs else faulty

abbrev pub run_steps : List Step → List Resource → Ending
run_steps [] rs = holding rs
run_steps (s ∷ ss) rs = elim (step s rs) [
  | holding rs' ↦ run_steps ss rs'
  | blocked ↦ blocked
  | faulty ↦ faulty
]

abbrev pub same_resources : List Resource → List Resource → Bool
same_resources [] [] = true
same_resources (r ∷ rs) (s ∷ ss) = same r s && same_resources rs ss
same_resources rs ss = false

abbrev pub holds : List Resource → Ending → Bool
holds rs (Ending.holding ss) = same_resources rs ss
holds rs ending = false

-- Behind a constructor, and behind `undo` too if it returned ESP_OK, just these resources are held.
abbrev pub leaves : List Resource → EspErr × List Step → List Step → Bool
leaves rs made undo = holds rs (run_steps (if is_ok made.0 then made.1 ++ undo else made.1) [])

pub and_true : (x y : Bool) → (x && y) ≡ true → (x ≡ true) × (y ≡ true)
and_true true y h = (refl, h)
and_true false y h = absurd (cc)

-- A test of every list of so many answers.
abbrev pub every : ℕ → (List Bool → Bool) → Bool
every zero f = f []
every (suc n) f = every n (λ bs. f (true ∷ bs)) && every n (λ bs. f (false ∷ bs))

pub every_lem : (bs : List Bool) (f : List Bool → Bool) → every (length bs) f ≡ true → f bs ≡ true
every_lem [] f h = h
every_lem (true ∷ bs) f h = every_lem bs (λ cs. f (true ∷ cs)) (and_true _ _ h).0
every_lem (false ∷ bs) f h = every_lem bs (λ cs. f (false ∷ cs)) (and_true _ _ h).1

-- What is granted of a list; the rest is refused.
abbrev pub granting : List Resource → List Bool → Resource → Bool
granting [] bs r = false
granting (s ∷ ss) [] r = false
granting (s ∷ ss) (b ∷ bs) r = if same s r then b else granting ss bs r
