-- ===== src/Notapp/ServerData/Timer.antt =====
-- The timer and its detection of a possible lock.
use c380_1code.Base.{◌≡◌, refl, Bool, true, false, ◌&&◌, List, [], ◌∷◌}
use c380_1code.Notapp.ServerData.{TimerData, initial_timer, set_timer_expired, is_locked}

-- the data after some calls of `set_timer_expired`, the latest call first
unfoldable pub after_calls : List Bool → TimerData
after_calls [] = initial_timer
after_calls (status ∷ calls) = set_timer_expired (after_calls calls) status

-- the two latest calls both said that the timer has expired
unfoldable pub expired_twice : List Bool → Bool
expired_twice [] = false
expired_twice (status ∷ []) = false
expired_twice (status ∷ previous ∷ calls) = status && previous

-- After any calls of `set_timer_expired` a lock is detected exactly if the two latest calls both
-- said that the timer has expired.
pub is_locked-expired_twice :
    (calls : List Bool) → is_locked (after_calls calls) ≡ expired_twice calls
unfolding after_calls expired_twice set_timer_expired is_locked initial_timer
is_locked-expired_twice [] = refl
is_locked-expired_twice (true ∷ []) = refl
is_locked-expired_twice (false ∷ []) = refl
is_locked-expired_twice (true ∷ true ∷ calls) = refl
is_locked-expired_twice (true ∷ false ∷ calls) = refl
is_locked-expired_twice (false ∷ previous ∷ calls) = refl
