-- ===== src/G3.antt =====
-- The Group 3 fax writer of faxd: faxd/t4.h, faxd/G3Encoder.h and faxd/G3Encoder.c++.
pub mod Codes
pub mod Encoder
pub mod Stream
pub mod PutBits
pub mod Decode
pub mod Tables
pub mod PutSpan
pub mod Spans
pub mod Lead
pub mod RunTables
pub mod FindBytes
pub mod FindSpan
pub mod WordSpans
pub mod WordLoops
pub mod WordScan
pub mod Rows
pub mod TwoD
pub mod Decode2d
pub mod Changes
pub mod RowRuns
pub mod Round2d
pub mod RoundTrip2d
pub mod Page2d
pub mod RoundTrip
pub mod Page
pub mod Document
pub mod Document2d
pub mod Align
mod Tests
