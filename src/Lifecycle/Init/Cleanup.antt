-- ===== src/Lifecycle/Init/Cleanup.antt =====
-- What is left of a call of edgesync_init.
use edgesync_espidf.Prelude.{
  ◌≡◌, refl, ◌⊎◌, inl, inr, Bool, true, false, Bool-cases, Option, none, some, List, [], ◌∷◌, ◌++◌,
  if◌then◌else◌,
}
use edgesync_espidf.Types.{EspErr}
use edgesync_espidf.Action.Keeps.{IsFailure}
use edgesync_espidf.Lifecycle.Init.{
  Config, Answers, Part, Action, storage_create, transport_create, init_of, attempt, before, init,
  deinit_actions, makes, handle, storage, transport, queue,
}

abbrev same_part : Part → Part → Bool
same_part handle handle = true
same_part storage storage = true
same_part transport transport = true
same_part queue queue = true
same_part p q = false

-- The parts that are there behind some actions, the last made first; `none` if a part is destroyed
-- that is not the last one made of those that are there.
unfoldable pub parts : List Action → List Part → Option (List Part)
parts [] ps = some ps
parts (Action.makes p ∷ rest) ps = parts rest (p ∷ ps)
parts (Action.destroys p ∷ rest) [] = none
parts (Action.destroys p ∷ rest) (q ∷ ps) = if same_part p q then parts rest ps else none

-- Every part is there behind ESP_OK, and none behind an edgesync_deinit that follows; none is there
-- behind an error.
abbrev pub IsClean : EspErr × List Action → Type 0
IsClean r =
    ((r.0 ≡ EspErr.esp_ok)
      × ((parts r.1 [] ≡ some (queue ∷ transport ∷ storage ∷ handle ∷ []))
          × (parts (r.1 ++ deinit_actions) [] ≡ some [])))
    ⊎ (IsFailure r.0 × (parts r.1 [] ≡ some []))

-- One call: it fails, and its clean-up is all that follows; or the rest goes on.
IsClean-attempt :
    (done : List Action) (err : EspErr) (cleanup : List Action) (rest : EspErr × List Action)
    → parts (done ++ cleanup) [] ≡ some []
    → IsClean (before done rest)
    → IsClean (before done (attempt err cleanup rest))
unfolding attempt
IsClean-attempt done EspErr.esp_ok cleanup rest cleans h = h
IsClean-attempt done err cleanup rest cleans h = inr (tt, cleans)

-- edgesync_init, for every configuration and whatever each constructor, the transport's init and the recovery
-- return: if it returns ESP_OK, the handle, the storage, the transport and the queue were made
-- and are there, and an edgesync_deinit of the stopped handle destroys all of them, the last made
-- first; if it returns an error, everything that was made was destroyed, the last made first,
-- and nothing else was.
pub init-IsClean : (config : Config) (a : Answers) → IsClean (init config a)
unfolding init parts transport_create storage_create
init-IsClean config a = elim (Bool-cases a.has_memory) [
  | inr out ↦ rw (out, init) (inr (tt, refl))
  | inl memory ↦
      rw (memory, init)
        (IsClean-attempt (makes handle ∷ []) (storage_create config a) _ _ refl (
          IsClean-attempt (makes handle ∷ makes storage ∷ []) (transport_create config a) _ _ refl (
            IsClean-attempt (makes handle ∷ makes storage ∷ makes transport ∷ [])
              (init_of a.transport_init) _ _ refl
              (IsClean-attempt (makes handle ∷ makes storage ∷ makes transport ∷ []) a.queue_create
                _ _ refl
                (IsClean-attempt (makes handle ∷ makes storage ∷ makes transport ∷ makes queue ∷ [])
                  a.recover _ _ refl (inl (refl, (refl, refl))))))))
]
