-- ===== src/Scripts/Epoch5/Superseded.antt =====
-- The epoch-5 program of scripts/ after the canonical binding has moved on.
use qnty_authority_root.Prelude.{◌≡◌, refl, ℤ, []}
use qnty_authority_root.Errors.{Error, Result, ok, err, ◌>>=◌}
use qnty_authority_root.Binding.{ink_v0f_qntyspot_commit}
use qnty_authority_root.Prelude.{text_eq}
use qnty_authority_root.Scripts.Files.{ProductionRoot}
use qnty_authority_root.Scripts.Start.{positive_time, public_anchor}
use qnty_authority_root.Scripts.Lane.{World, Packages}
use qnty_authority_root.Scripts.Epoch5.{expected_qntyspot_commit, assert_epoch5_lane_not_superseded}
use qnty_authority_root.Scripts.Epoch5.Checks.{epoch5_start}
use qnty_authority_root.Scripts.Epoch5.Issue.{issue_epoch5_once, epoch5_main}

abbrev IsRefused {ℓ} : {A : Type ℓ} → Result A → Type ℓ
IsRefused r = (e : Error) × (r ≡ err e)

>>=-IsRefused {ℓ ℓ'} :
    {A : Type ℓ} {C : Type ℓ'} (m : Result A) (k : A → Result C)
    → ((a : A) → IsRefused (k a))
    → IsRefused (m >>= k)
>>=-IsRefused (err e) k h = (e, refl)
>>=-IsRefused (ok a) k h = h a

module _ (packages : Packages) (world : World) where
  epoch5_start-IsRefused :
      (root : ProductionRoot) (t : ℤ) → IsRefused (epoch5_start packages world root t)
  unfolding epoch5_start assert_epoch5_lane_not_superseded text_eq ink_v0f_qntyspot_commit
      expected_qntyspot_commit
  epoch5_start-IsRefused root t =
      >>=-IsRefused (positive_time t) _
        λ n. >>=-IsRefused _ _ λ _. >>=-IsRefused (public_anchor root) _ λ anchor. (_, refl)

  -- The epoch-5 program refuses at every time and in every production root, with exit status 2 and
  -- nothing on the standard output, and it leaves the root as it was.
  pub epoch5_main-refuses :
      (t : ℤ) (root : ProductionRoot) → epoch5_main packages world t root ≡ ((2, []), root)
  unfolding epoch5_main issue_epoch5_once
  epoch5_main-refuses t root = let (e, h) = epoch5_start-IsRefused root t in rw h refl
