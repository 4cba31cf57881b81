-- ===== src/Matcher.antt =====
-- internal/matcher/matcher.go and internal/query/jsonpath.go: the score of a request against a
-- matcher, and the best of several matches.
pub mod Segment
pub mod SegmentLaws
pub mod Body
pub mod Best
pub mod BestLaws
pub mod Score
pub mod ScoreLaws
pub mod Tests
