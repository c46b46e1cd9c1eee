-- ===== src/Tests/DomainTests.antt =====
-- The life cycle of a run at concrete inputs.
use owlmatic.Prelude.{◌≡◌, refl}
use owlmatic.Errors.{ok, err, value_error}
use owlmatic.Domain.{finish, consistent_state, IsConsistent}
use owlmatic.Domain.Lifecycle.{consistent_state_sound, consistent_state-IsConsistent}
use owlmatic.Tests.Samples.{a_run, done_run, passing}

finish_passing : finish a_run passing ≡ ok done_run
unfolding finish consistent_state
finish_passing = refl

-- A pass with unknown effects does not validate.
finish_uncertain : finish a_run (record passing { effects = a_run.effects }) ≡ err value_error
unfolding finish consistent_state
finish_uncertain = refl

consistent_state-IsConsistent_example : IsConsistent done_run
unfolding consistent_state
consistent_state-IsConsistent_example = (consistent_state-IsConsistent done_run).0 refl

pub done-IsConsistent : IsConsistent done_run
unfolding consistent_state
done-IsConsistent = consistent_state_sound done_run done_run refl
