-- ===== src/Citations/Examples.antt =====
-- Tests and instances for app/services/citation_verification.py: an answer of Anthropic with one citation,
-- whose page has been captured.
use signal_map.Common.{
  String, ◌≡◌, ◌≢◌, ◌⊎◌, refl, true, false, none, some, [], ◌∷◌, ◌++◌, arith, Text, ok,
}
use signal_map.Store.{VerificationJob, capture, job_leased, other_kind}
use signal_map.Jobs.{JobSteps, process_verification_job}
use signal_map.Jobs.Outcome.{IsSettledJob}
use signal_map.Quote.Samples.{ascii, page, no_blocks}
use signal_map.Quote.Samples.{quote as quoted}
use signal_map.Citations.Tables.{
  Citation, SourceDocument, live, quote, CitationVerification, Evidence, archive_unavailable,
  ArchiveClient, Library, ResponseToCheck,
}
use signal_map.Citations.Lookup.{non_empty_url, non_empty_text, cited_text, latest_source_document}
use signal_map.Citations.Check.{PassOptions}
use signal_map.Citations.Pass.{check_citation, verify_citations_by_quote}
use signal_map.Citations.Resume.{IsUnrepeated, verify_citations_by_quote-IsUnrepeated}
use signal_map.Citations.Final.{quote_step, process_verification_job-quote_step}
use signal_map.Citations.Says.{Says}
use signal_map.Citations.Meaning.{check_citation-Says}

abbrev library : Library
library = record {
  tools = ascii;
  matching_blocks = no_blocks;
  sha256 = λ t. t;
  to_thousandths = λ s. 1000;
  derive_claim = λ c. none;
  server_time = λ id. 200;
}

abbrev response : ResponseToCheck
response = record { id = 8; provider_code = "anthropic"; started_at = 50; output = [] }

abbrev silent : ArchiveClient
silent = record {
  find_closest_snapshot = λ c date. archive_unavailable;
  fetch_snapshot_content = λ c snapshot. archive_unavailable;
}

abbrev options : PassOptions
options = record {
  since = some 100;
  final_attempt = false;
  now = 150;
  is_past_deadline = λ i. false;
  archive = some silent;
}

abbrev cited : Citation
cited = record {
  id = 3;
  raw_response_id = 8;
  source_url = some "https://a";
  source_passage = some quoted;
}

abbrev captured : SourceDocument
captured = record {
  id = 4;
  requested_url = "https://a";
  final_url = some "https://a";
  method = live;
  archive_timestamp = none;
  http_status = some 200;
  error_reason = none;
  text_sha256 = some (1 ∷ []);
  page_starts = none;
  locations = none;
  fetched_at = 140;
}

abbrev evidence : Evidence
evidence = record {
  citations = cited ∷ [];
  source_texts = record { sha256 = 1 ∷ []; text = page; chars = 76 } ∷ [];
  source_documents = captured ∷ [];
  next_document_id = 5;
  verifications = [];
  next_verification_id = 1;
}

none_yet : IsUnrepeated 100 evidence.verifications
none_yet id = omega arith

verify_citations_by_quote-IsUnrepeated_example :
    IsUnrepeated 100 (verify_citations_by_quote library response options evidence).0.verifications
verify_citations_by_quote-IsUnrepeated_example =
    verify_citations_by_quote-IsUnrepeated library response options 100 evidence refl none_yet

check_citation-Says_example :
    let after = (check_citation library response options evidence cited).0 in
    (after.verifications ≡ evidence.verifications)
    ⊎ ((v : CitationVerification) × (url : String) × (quote_text : Text) × (d : SourceDocument)
        × (after.verifications ≡ evidence.verifications ++ (v ∷ []))
        × (v.citation_id ≡ cited.id)
        × (v.check_type ≡ quote)
        × (non_empty_url cited.source_url ≡ some url)
        × (non_empty_text (cited_text cited response.provider_code response.output)
            ≡ some quote_text)
        × (latest_source_document evidence.source_documents url ≡ some d)
        × Says library response options cited evidence after quote_text d v v.verdict)
check_citation-Says_example = check_citation-Says library response options evidence cited

abbrev job : VerificationJob
job = record {
  id = 1;
  raw_response_id = 8;
  kind = capture;
  status = job_leased;
  priority = 0;
  attempts = 3;
  scheduled_for = 140;
  leased_by = some "w";
  lease_expires_at = some 160;
  requested_by_user_id = none;
  last_error = none;
  created_at = 100;
  finished_at = none;
}

abbrev steps : JobSteps
steps = record {
  source_urls = some "https://a" ∷ [];
  capture_url = λ url. ok tt;
  elapsed = λ i. 30;
  verify_citations = λ final. ok (true, 0);
  is_judge_provider = false;
  auto_verify_citations = false;
  judge_citations = ok true;
}

known : job.kind ≢ other_kind
known e = ground (arith, e)

process_verification_job-quote_step_example :
    (job' : VerificationJob) × (process_verification_job
        (record steps { verify_citations = quote_step library response options evidence })
        job
        150
      ≡ ok job')
    × IsSettledJob 150 job job'
process_verification_job-quote_step_example =
    process_verification_job-quote_step library response options evidence steps job 150
      (omega arith) known
