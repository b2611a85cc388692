-- ===== src/Tests/Refreshing.antt =====
-- Publishing: src/psych.cc, SendRefresh, at the response of one row.
use psych.Prelude.{ℕ, map, get_elem?, ◌≡◌, ◌≢◌, List, [], ◌∷◌, none, some, refl, true, arith}
use psych.Prelude.Int.{pos}
use psych.Prelude.Bytes.{Bytes, codes, equal}
use psych.Config.{default_config}
use psych.Store.{Provider}
use psych.Refresh.Fields.{find_field, column_fields}
use psych.Refresh.Aligned.{row_fields, column_fields-mapped}
use psych.Refresh.Rows.{NameMap, faulted, send_refresh}
use psych.Refresh.Safe.{Unmapped, Present, send_refresh-ne-faulted}
use psych.Store.{Session, Submission}
use psych.Refresh.Rows.{published_all, find_name}
use psych.Refresh.Described.{deliveries, submissions, Extended}
use psych.Refresh.Complete.{batch_of, send_refresh-deliveries}
use psych.Tests.Publishing.{logged_in, logged_in-Covered, one_stream}
use psych.Tests.Fixture.{
  platform, resource, provider, no_stamp, ok_response, state, document, is_accepted,
}

abbrev columns : List Bytes
columns = codes "Buzz" ∷ codes "Fear" ∷ []

column_fields-mapped_example :
    column_fields platform resource.fields 0 (codes "Sector" ∷ columns) (pos 7 ∷ pos 8 ∷ [])
    ≡ row_fields platform resource.fields
        (find_field (codes "Sector") resource.fields)
        columns
        (pos 7 ∷ pos 8 ∷ [])
column_fields-mapped_example =
    column_fields-mapped platform resource.fields (codes "Sector") columns (pos 7 ∷ pos 8 ∷ []) refl

abbrev names : NameMap
names = (codes "CMPNY", (codes "topic", 0)) ∷ []

abbrev publisher : Provider
publisher = record provider {
  streams =
      (record { rfa_name = codes "TRMI.CMPNY"; token = some 0 ∷ none ∷ []; alive = true }) ∷ [];
  directory = (codes "TRMI.CMPNY", 0) ∷ [];
}

sector-Unmapped : Unmapped resource.fields document.columns
unfolding find_field equal
sector-Unmapped = refl

names-Present : Present publisher.streams names
names-Present = (omega arith, tt)

-- The provider has a session that is logged in, and one that is muted.
logged_in-Present : Present logged_in.streams names
logged_in-Present = (omega (arith, one_stream), tt)

send_refresh-ne-faulted_example :
    send_refresh platform (λ row i. some 0) default_config resource document names logged_in
    ≢ faulted
send_refresh-ne-faulted_example =
    send_refresh-ne-faulted platform default_config ok_response no_stamp state document
      (λ row i. some 0) resource names logged_in (pos 5000000) is_accepted refl sector-Unmapped
      logged_in-Present logged_in-Covered

send_refresh-deliveries_example :
    (p' : Provider) × (send_refresh platform
        (λ row i. some 0)
        default_config
        resource
        document
        names
        logged_in
      ≡ published_all p')
    × ((i : ℕ) (s : Session)
        → get_elem? logged_in.sessions i ≡ some s
        → (s' : Session) × (get_elem? p'.sessions i ≡ some s')
          × Extended s
              (submissions i (
                deliveries platform
                  (batch_of platform default_config resource document (pos 5000000))
                  names
                  logged_in
                  document.rows))
              s')
send_refresh-deliveries_example =
    send_refresh-deliveries platform default_config ok_response no_stamp state document
      (λ row i. some 0) resource names logged_in (pos 5000000) is_accepted refl sector-Unmapped
      logged_in-Present logged_in-Covered (λ k i. ground arith)

-- The message of the row, under the token of the first session.
sent_once :
    map
      (λ (x : Submission). x.token)
      (submissions 0 (
        deliveries platform
          (batch_of platform default_config resource document (pos 5000000))
          names
          publisher
          document.rows))
    ≡ some 0 ∷ []
unfolding find_name equal
sent_once = refl
