-- ===== src/Citations/Tables.antt =====
-- The rows that the quote check reads and writes, and what it is given.
use signal_map.Common.{ℕ, String, Bool, Option, List, Text, Exc}
use signal_map.Quote.Normal.{TextTools}
use signal_map.Quote.Match.{Block, Similarity, QuoteVerdict, ChunkMatch}

-- a row of citations, of the columns that the check reads
pub record Citation : Type 0 where
  pub id : ℕ
  pub raw_response_id : ℕ
  pub source_url : Option String
  pub source_passage : Option Text

-- `raw_payload["output"]`, where an item or a result may be null
pub record SearchResult : Type 0 where
  pub url : Option String
  pub snippet : Option Text

pub record PayloadItem : Type 0 where
  pub is_search_results : Bool
  pub results : List (Option SearchResult)

pub record SourceText : Type 0 where
  pub sha256 : Text
  pub text : Text
  pub chars : ℕ

pub record Place : Type 0 where
  pub headings : List Text
  pub collapsed : Bool
  pub collapsed_title : Option Text

pub record Location : Type 0 where
  pub start : ℕ
  pub end : ℕ
  pub place : Place

pub data CaptureMethod : Type 0 where
  live archive : CaptureMethod

-- a row of source_documents, of the columns that the check reads or sets, but the version of the code
pub record SourceDocument : Type 0 where
  pub id : ℕ
  pub requested_url : String
  pub final_url : Option String
  pub method : CaptureMethod
  pub archive_timestamp : Option String
  pub http_status : Option ℕ
  pub error_reason : Option String
  pub text_sha256 : Option Text
  pub page_starts : Option (List ℕ)
  pub locations : Option (List Location)
  pub fetched_at : ℕ

pub data CheckType : Type 0 where
  quote llm reachability : CheckType

-- the verdicts that a quote check writes; the other checks' are one constructor
pub data Verdict : Type 0 where
  of_quote : QuoteVerdict → Verdict
  page_changed archive_only unverifiable of_other_check : Verdict

pub record Claim : Type 0 where
  pub text : Option Text
  pub method : Option String

-- a row of citation_verifications, of the columns that the check sets, but the version of the code;
-- `similarity` is in thousandths, and the claim's text and method are one field
pub record CitationVerification : Type 0 where
  pub id : ℕ
  pub citation_id : ℕ
  pub source_document_id : Option ℕ
  pub claim : Option Claim
  pub check_type : CheckType
  pub verdict : Verdict
  pub reason : Option String
  pub similarity : Option ℕ
  pub matched_text : Option Text
  pub match_start : Option ℕ
  pub match_end : Option ℕ
  pub page_number : Option ℕ
  pub location : Option Place
  pub fragments : Option (List ChunkMatch)
  pub created_at : ℕ

pub record Evidence : Type 0 where
  pub citations : List Citation
  pub source_texts : List SourceText
  pub source_documents : List SourceDocument
  pub next_document_id : ℕ
  pub verifications : List CitationVerification
  pub next_verification_id : ℕ

pub record ArchiveSnapshot : Type 0 where
  pub archive_timestamp : String
  pub fetch_url : String
  pub view_url : String

pub record ArchivedContent : Type 0 where
  pub text : Text
  pub page_starts : Option (List ℕ)
  pub locations : Option (List Location)

-- an answer, `ArchiveUnavailable`, or another exception
pub data Reply (A : Type 0) : Type 0 where
  reply : A → Reply A
  archive_unavailable : Reply A
  failed : Exc → Reply A

-- archive_lookup, asked for one citation
pub record ArchiveClient : Type 0 where
  pub find_closest_snapshot : Citation → ℕ → Reply (Option ArchiveSnapshot)
  pub fetch_snapshot_content : Citation → ArchiveSnapshot → Reply (Option ArchivedContent)

-- the code that the check calls: Python's, the claim, and the database's clock, at the insert of the
-- row of an id
pub record Library : Type 0 where
  pub tools : TextTools
  pub matching_blocks : Text → Text → List Block
  pub sha256 : Text → Text
  pub to_thousandths : Similarity → ℕ
  pub derive_claim : Citation → Option Claim
  pub server_time : ℕ → ℕ

-- one response: its provider, the start of its run, and the payload
pub record ResponseToCheck : Type 0 where
  pub id : ℕ
  pub provider_code : String
  pub started_at : ℕ
  pub output : List (Option PayloadItem)
