-- ===== src/Tei.antt =====
-- tei_converter.py: from the results of the NLP provider to TEI XML.
pub mod Data
pub mod Xml
pub mod Escape
pub mod Validate
pub mod EntityMap
pub mod Inline
pub mod Header
pub mod Standoff
pub mod Convert
mod Examples
