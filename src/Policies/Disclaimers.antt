-- ===== src/Policies/Disclaimers.antt =====
-- domain_packs/common/compliance.py: the disclaimer texts, and which pack has which.
use langgraph_agent_stack.Prelude.{
  if◌then◌else◌, ◌==◌, Text, text, Option, none, some, text_eq, nat_eq,
}

unfoldable pub talent_screening_disclaimer : Text
talent_screening_disclaimer =
    text
      "ASSISTIVE OUTPUT ONLY — NOT A HIRING DECISION. This screening summary is generated by AI and must not be used as the sole basis for any employment decision. A qualified human reviewer must evaluate every candidate. Candidates may have rights regarding automated processing (e.g. GDPR Art. 22, Québec Law 25, NYC Local Law 144). Operators are responsible for applicable bias audits, candidate notices, and regulatory compliance (including EU AI Act high-risk requirements for recruitment AI where applicable)."

unfoldable pub job_description_writer_disclaimer : Text
job_description_writer_disclaimer =
    text
      "ASSISTIVE OUTPUT ONLY — NOT APPROVED FOR PUBLICATION. This job description draft must be reviewed and approved by HR and legal/compliance before posting. It may reflect model biases; validate inclusive language and legal requirements in your jurisdiction."

unfoldable pub hr_policy_qa_disclaimer : Text
hr_policy_qa_disclaimer =
    text
      "INFORMATIONAL ONLY — NOT LEGAL OR HR ADVICE. Answers are generated from supplied policy text and may be incomplete or outdated. Employees with rights regarding automated processing must receive appropriate notice. Escalate to qualified HR/legal staff for binding interpretations."

unfoldable pub contract_reviewer_disclaimer : Text
contract_reviewer_disclaimer =
    text
      "ASSISTIVE OUTPUT ONLY — NOT LEGAL ADVICE. This contract review is generated by AI and does not constitute legal counsel. A qualified attorney must review all commercial agreements before execution."

unfoldable pub financial_memo_disclaimer : Text
financial_memo_disclaimer =
    text
      "ASSISTIVE OUTPUT ONLY — NOT FINANCIAL OR INVESTMENT ADVICE. This memo is generated by AI for internal drafting purposes. A qualified finance professional must validate all figures, assumptions, and recommendations before decisions."

-- The disclaimer where neither the policy nor the table has one.
unfoldable pub last_resort_disclaimer : Text
last_resort_disclaimer =
    text
      "ASSISTIVE OUTPUT ONLY. A qualified human must review this output before any operational or legal use."

-- `_DEFAULT_DISCLAIMERS`
unfoldable pub default_disclaimer_for_pack : Text → Option Text
default_disclaimer_for_pack pack_id =
    if pack_id == text "talent_screening"
    then some talent_screening_disclaimer
    else if pack_id == text "job_description_writer"
    then some job_description_writer_disclaimer
    else if pack_id == text "hr_policy_qa"
    then some hr_policy_qa_disclaimer
    else if pack_id == text "contract_reviewer"
    then some contract_reviewer_disclaimer
    else if pack_id == text "financial_memo"
    then some financial_memo_disclaimer
    else none
