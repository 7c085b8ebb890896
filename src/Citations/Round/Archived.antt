-- ===== src/Citations/Round/Archived.antt =====
-- What the archive answers for a citation.

use mathlib.Core.Path.{subst}
use signal_map.Common.{
  Option-cases, ◌≡◌, refl, String, Option, none, some, Text, Result, ok, raised, Exc, Bool-cases,
  inl, inr, arith,
}
use signal_map.Quote.Match.{QuoteMatchResult}
use signal_map.Citations.Tables.{
  Citation, SourceDocument, Evidence, ArchiveSnapshot, ArchivedContent, Reply, reply,
  archive_unavailable, failed, Library, ResponseToCheck, ArchiveClient,
}
use signal_map.Citations.Check.{
  PassOptions, is_verified, store_archive_document, match_archived, try_archive_fallback,
}
use signal_map.Citations.Pass.{ask_archive}
use signal_map.Citations.Round.{matched, IsArchived}

module _ (lib : Library) (response : ResponseToCheck) (options : PassOptions) where
  -- what the archive says: nothing of use, or a snapshot that has the quote
  pub data Asked (db : Evidence) (citation : Citation) (url : String) (quote_text : Text)
      (r : Evidence × Reply (Option (SourceDocument × QuoteMatchResult))) : Type 0 where
    no_answer : r ≡ (db, archive_unavailable) → Asked db citation url quote_text r
    broken : (e : Exc) → r ≡ (db, failed e) → Asked db citation url quote_text r
    not_there : r ≡ (db, reply none) → Asked db citation url quote_text r
    there :
        (stored : Evidence) (found : SourceDocument) (result : QuoteMatchResult)
        → IsArchived lib response options db citation url quote_text stored found result
        → r ≡ (stored, reply (some (found, result)))
        → Asked db citation url quote_text r

  match_archived-Asked :
      (db : Evidence) (client : ArchiveClient) (citation : Citation) (url : String)
      (quote_text : Text) (snapshot : ArchiveSnapshot) (content : ArchivedContent)
      → options.archive ≡ some client
      → client.find_closest_snapshot citation response.started_at ≡ reply (some snapshot)
      → client.fetch_snapshot_content citation snapshot ≡ reply (some content)
      → Asked db citation url quote_text
          (match_archived lib response options db url quote_text snapshot content)
  unfolding match_archived
  match_archived-Asked db client citation url quote_text snapshot content has found got =
      go (matched lib response options quote_text content.text) refl
    where
      go :
          (m : Result (Option QuoteMatchResult))
          → matched lib response options quote_text content.text ≡ m
          → Asked db citation url quote_text
              (match_archived lib response options db url quote_text snapshot content)
      go (raised e) h = broken e (ground (arith, h))
      go (ok none) h = not_there (ground (arith, h))
      go (ok (some result)) h =
          elim (Bool-cases (is_verified lib response options result.verdict)) [
            | inl v ↦
                let stored = store_archive_document lib response options db url snapshot content in
                there stored.0 stored.1 result
                  (record {
                    client = client;
                    snapshot = snapshot;
                    content = content;
                    has_client = has;
                    is_closest = found;
                    is_fetched = got;
                    is_stored = refl;
                    is_matched = h;
                    has_quote = v;
                  })
                  (ground (arith, h, v))
            | inr v ↦ not_there (ground (arith, h, v))
          ]

  try_archive_fallback-Asked :
      (db : Evidence) (client : ArchiveClient) (citation : Citation) (url : String)
      (quote_text : Text)
      → options.archive ≡ some client
      → Asked db citation url quote_text
          (try_archive_fallback lib response options db client citation url quote_text)
  unfolding try_archive_fallback
  try_archive_fallback-Asked db client citation url quote_text has =
      closest (client.find_closest_snapshot citation response.started_at) refl
    where
      answer : Evidence × Reply (Option (SourceDocument × QuoteMatchResult))
      answer = try_archive_fallback lib response options db client citation url quote_text

      fetched :
          (snapshot : ArchiveSnapshot) (m : Reply (Option ArchivedContent))
          → client.find_closest_snapshot citation response.started_at ≡ reply (some snapshot)
          → client.fetch_snapshot_content citation snapshot ≡ m
          → Asked db citation url quote_text answer
      fetched snapshot archive_unavailable e f = no_answer (ground (arith, e, f))
      fetched snapshot (failed x) e f = broken x (ground (arith, e, f))
      fetched snapshot (reply none) e f = not_there (ground (arith, e, f))
      fetched snapshot (reply (some content)) e f =
          subst (Asked db citation url quote_text)
            {x = match_archived lib response options db url quote_text snapshot content}
            (ground (arith, e, f))
            (match_archived-Asked db client citation url quote_text snapshot content has e f)

      closest :
          (m : Reply (Option ArchiveSnapshot))
          → client.find_closest_snapshot citation response.started_at ≡ m
          → Asked db citation url quote_text answer
      closest archive_unavailable e = no_answer (ground (arith, e))
      closest (failed x) e = broken x (ground (arith, e))
      closest (reply none) e = not_there (ground (arith, e))
      closest (reply (some snapshot)) e =
          fetched snapshot (client.fetch_snapshot_content citation snapshot) e refl

  pub ask_archive-Asked :
      (db : Evidence) (citation : Citation) (url : String) (quote_text : Text)
      → Asked db citation url quote_text
          (ask_archive lib response options db citation url quote_text)
  ask_archive-Asked db citation url quote_text = elim (Option-cases options.archive) [
    | inl e ↦ not_there (ground (arith, e))
    | inr (client, e) ↦
        subst (Asked db citation url quote_text)
          {x = try_archive_fallback lib response options db client citation url quote_text}
          (ground (arith, e)) (try_archive_fallback-Asked db client citation url quote_text e)
  ]
