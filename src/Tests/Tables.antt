-- ===== src/Tests/Tables.antt =====
-- Inputs for the theorems about backend/internal/channel/repository.go and
-- backend/internal/user/repository.go.
use trabalho_radio_px.Prelude.{ℕ, ◌+◌, String, not, ◌==◌, ◌≡◌, ◌⊎◌, refl, none, List, [], ◌∷◌}
use trabalho_radio_px.Prelude.Map.{find, put, entry}
use trabalho_radio_px.Channel.Store.{new_store}
use trabalho_radio_px.Channel.Repository
use trabalho_radio_px.Channel.Repository.{Columns, row_of}
use trabalho_radio_px.Channel.Repository.Rows.{users_of}
use trabalho_radio_px.Channel.Repository.Agreement.{mapped}
use trabalho_radio_px.Channel.Repository.History.{
  Call, creates, joins, leaves, renames, deletes, gets, asks, lists, run_rows, run_maps, new_tables,
  run_rows-run_maps,
}
use trabalho_radio_px.User.Store.{has_email}
use trabalho_radio_px.User.Store.Validity.{IsValid}
use trabalho_radio_px.User.Repository.{update_user_rows}
use trabalho_radio_px.User.Repository.Validity.{update_user_rows-IsValid}
use trabalho_radio_px.Tests.Places.{place}
use trabalho_radio_px.Tests.Accounts.{accounts, users, take_over}

-- A zone three units to the east, and names of any length but the empty one.
abbrev columns : Columns
columns = record { timestamp = λ n. n + 3; fits_100 = λ s. not (s == "") }

abbrev calls : List (Call ℕ)
calls =
    creates (place "c1" 7)
    ∷ joins 1 2 "c1" "bia"
    ∷ asks "c1" "bia"
    ∷ leaves 3 "c1" "ana"
    ∷ renames "c1" "road" "" 4
    ∷ joins 5 5 "c2" "bia"
    ∷ gets "c1"
    ∷ lists "c1"
    ∷ deletes "c1"
    ∷ []

run_rows-run_maps_example :
    ((run_rows columns 0 (new_tables columns) calls).1 ≡ (run_maps columns 0 new_store calls).1)
    × ((id : String)
        → (find (run_rows columns 0 (new_tables columns) calls).0.channels id
            ≡ mapped (row_of columns) (find (run_maps columns 0 new_store calls).0.channels id))
          × (users_of (run_rows columns 0 (new_tables columns) calls).0.user_channels id
              ≡ entry (run_maps columns 0 new_store calls).0.channel_users id))
unfolding find Repository.add_member Repository.create put
run_rows-run_maps_example =
    run_rows-run_maps columns 0 calls
      ((refl, refl), (tt, (refl, (tt, (refl, (tt, (tt, (tt, (tt, tt)))))))))

update_user_rows-IsValid_example :
    IsValid (update_user_rows accounts 9 users "u1" take_over).0
    × (((update_user_rows accounts 9 users "u1" take_over).1 ≡ none)
        ⊎ ((update_user_rows accounts 9 users "u1" take_over).0 ≡ users))
unfolding has_email find
update_user_rows-IsValid_example =
    update_user_rows-IsValid accounts 9 users "u1" take_over
      (refl, refl, refl, (refl, refl, refl, tt))
